-- ===== src/Models/Supply/Order.antt =====
-- puller/models/supply.go: Go ranges over the map of delegates in no fixed order.
use mathlib.Core.List.{Permᴰ}
use tezos_index.Common.{◌≡◌, refl, ◌∙◌, ap, List, arith, true, false, Bool, if◌then◌else◌}
use tezos_index.Common.Int64.{Int64, add64}
use tezos_index.Models.Account.{Account, staking_balance}
use tezos_index.Models.Block.{Block}
use tezos_index.Models.Supply.{Supply, update, count_delegate, count_delegates, close_block}
use tezos_index.Models.Supply.{open_block, update_flows, update_ops, reset_staking}

add64-right_comm : (x y z : Int64) → add64 (add64 x y) z ≡ add64 (add64 x z) y
unfolding add64
add64-right_comm x y z = omega arith

-- `count_delegate` on what it reads of the account.
abbrev count : Bool → Int64 → Int64 → Supply → Supply
count active sb db s = record s {
  staking = add64 s.staking sb;
  delegated = add64 s.delegated db;
  active_staking = if active then add64 s.active_staking sb else s.active_staking;
  active_delegated = if active then add64 s.active_delegated db else s.active_delegated;
  inactive_staking = if active then s.inactive_staking else add64 s.inactive_staking sb;
  inactive_delegated = if active then s.inactive_delegated else add64 s.inactive_delegated db;
}

count_comm :
    (p q : Bool) (x y x' y' : Int64) (s : Supply)
    → count q x' y' (count p x y s) ≡ count p x y (count q x' y' s)
count_comm true true x y x' y' s = rw (
  add64-right_comm s.staking x x',
  add64-right_comm s.delegated y y',
  add64-right_comm s.active_staking x x',
  add64-right_comm s.active_delegated y y',
)
count_comm true false x y x' y' s =
    rw (add64-right_comm s.staking x x', add64-right_comm s.delegated y y')
count_comm false true x y x' y' s =
    rw (add64-right_comm s.staking x x', add64-right_comm s.delegated y y')
count_comm false false x y x' y' s = rw (
  add64-right_comm s.staking x x',
  add64-right_comm s.delegated y y',
  add64-right_comm s.inactive_staking x x',
  add64-right_comm s.inactive_delegated y y',
)

count_delegate_comm :
    (s : Supply) (a b : Account)
    → count_delegate (count_delegate s a) b ≡ count_delegate (count_delegate s b) a
unfolding count_delegate
count_delegate_comm s a b =
    count_comm a.is_active_delegate b.is_active_delegate (staking_balance a) a.delegated_balance
      (staking_balance b) b.delegated_balance s

count_delegates-Permᴰ :
    (s : Supply) {l m : List Account} → Permᴰ l m → count_delegates s l ≡ count_delegates s m
unfolding count_delegates
count_delegates-Permᴰ s Permᴰ.nil = refl
count_delegates-Permᴰ s (Permᴰ.cons {a = a} {b = b} {l₁ = l} {l₂ = m} e p) =
    ap (λ (x : Account). count_delegates (count_delegate s x) l) e
    ∙ count_delegates-Permᴰ (count_delegate s b) p
count_delegates-Permᴰ s (Permᴰ.swap {a = a} {b = b} {a' = a'} {b' = b'} {l = l} e f) =
    ap (λ (x : Supply). count_delegates x l) (count_delegate_comm s a b)
    ∙ ap (λ (x : Account). count_delegates (count_delegate (count_delegate s x) a) l) f
    ∙ ap (λ (x : Account). count_delegates (count_delegate (count_delegate s a') x) l) e
count_delegates-Permᴰ s (Permᴰ.trans p q) = count_delegates-Permᴰ s p ∙ count_delegates-Permᴰ s q

-- The order in which the update ranges over the delegates makes no difference.
pub update-Perm :
    (s : Supply) (b : Block) (l m : List Account) → Permᴰ l m → update s b l ≡ update s b m
unfolding update
update-Perm s b l m p = ap close_block (
    count_delegates-Permᴰ (reset_staking (update_ops (update_flows (open_block s b) b.flows) b.ops))
      p)
