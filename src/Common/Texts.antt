-- ===== src/Common/Texts.antt =====
-- Tables of texts: a switch over string constants, and what makes it read a printed value back.
use Prim.Native.String.{String}
use text.Mathlib.Text.{◌==◌ as str_eq}
use text.Mathlib.TextEquality.{eq_iff}
use mathlib.Core.Path.{◌≡◌, refl, sym, ap, ◌∙◌}
use mathlib.Core.Logic.{◌≢◌, ◌↔◌, inl, inr}
use mathlib.Core.List.{List, [], ◌∷◌}
use tezos_index.Common.Tests.{Bool-cases, if◌then◌else◌}

module _ {A : Type 0} where
  -- `switch s { case w: return x … default: return bad }`
  abbrev pub read_table : List (String × A) → A → String → A
  read_table [] bad s = bad
  read_table ((w, x) ∷ rows) bad s = if str_eq s w then x else read_table rows bad s

  -- Every row prints as its own text.
  abbrev pub Prints : (A → String) → List (String × A) → Type 0
  Prints text [] = Unit
  Prints text ((w, x) ∷ rows) = (text x ≡ w) × Prints text rows

  pub text-read_table :
      (text : A → String) (rows : List (String × A)) (bad : A) (s : String)
      → Prints text rows
      → read_table rows bad s ≢ bad
      → text (read_table rows bad s) ≡ s
  text-read_table text [] bad s p n = absurd (n refl)
  text-read_table text ((w, x) ∷ rows) bad s (px, p) n = elim (Bool-cases (str_eq s w)) [
    | inl e ↦ rw e (px ∙ sym ((eq_iff s w).0 e))
    | inr e ↦ rw e (text-read_table text rows bad s p (λ z. n (rw e z)))
  ]

  -- A table that reads every text back finds a value exactly at its text.
  pub read_table_iff :
      (text : A → String) (rows : List (String × A)) (bad : A) (s : String) (t : A)
      → Prints text rows
      → read_table rows bad (text t) ≡ t
      → t ≢ bad
      → (read_table rows bad s ≡ t) ↔ (s ≡ text t)
  read_table_iff text rows bad s t p back valid =
      (λ e. sym (text-read_table text rows bad s p (rw e valid)) ∙ ap text e, λ e. rw e back)
