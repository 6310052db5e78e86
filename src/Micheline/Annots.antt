-- ===== src/Micheline/Annots.antt =====
-- micheline/primitives.go: annotations, which stand in the binary form as one text, joined by
-- spaces. A text is the list of its bytes.
use tezos_index.Common.{
  ℕ, ◌≡◌, ◌≢◌, refl, ap, arith, List, [], ◌∷◌, ◌++◌, ◌==◌, if◌then◌else◌, Bool-cases, inl, inr,
}

abbrev pub space : ℕ
space = b' '

-- `strings.Join(annos, " ")`
unfoldable pub join : List (List ℕ) → List ℕ
join [] = []
join (w ∷ []) = w
join (w ∷ v ∷ ws) = w ++ (space ∷ join (v ∷ ws))

-- A byte in front of the first text.
abbrev pub push : ℕ → List (List ℕ) → List (List ℕ)
push c [] = (c ∷ []) ∷ []
push c (w ∷ ws) = (c ∷ w) ∷ ws

-- `strings.Split(text, " ")`: at least one text.
unfoldable pub split : List ℕ → List (List ℕ)
split [] = [] ∷ []
split (c ∷ cs) = let rest = split cs in if c == space then [] ∷ rest else push c rest

-- No byte of a text is a space.
abbrev pub IsWord : List ℕ → Type 0
IsWord [] = Unit {0}
IsWord (c ∷ cs) = (c ≢ space) × IsWord cs

-- A list of annotations: at least one, and none with a space.
abbrev pub IsAnnots : List (List ℕ) → Type 0
IsAnnots [] = ⊥
IsAnnots (w ∷ []) = IsWord w
IsAnnots (w ∷ v ∷ ws) = IsWord w × IsAnnots (v ∷ ws)

split_word : (w : List ℕ) → IsWord w → split w ≡ w ∷ []
unfolding split
split_word [] h = refl
split_word (c ∷ cs) h = ground (arith, split_word cs h.1)

split-word_append : (w cs : List ℕ) → IsWord w → split (w ++ (space ∷ cs)) ≡ w ∷ split cs
unfolding split
split-word_append [] cs h = refl
split-word_append (c ∷ w) cs h = ground (arith, split-word_append w cs h.1)

pub split-join : (ws : List (List ℕ)) → IsAnnots ws → split (join ws) ≡ ws
unfolding join
split-join [] h = absurd h
split-join (w ∷ []) h = split_word w h
split-join (w ∷ v ∷ ws) h =
    rw (split-word_append w (join (v ∷ ws)) h.0)
      (ap (λ (l : List (List ℕ)). w ∷ l) (split-join (v ∷ ws) h.1))

-- What a split gives is a list of annotations, and joins to the text.
push-IsAnnots : (c : ℕ) (ws : List (List ℕ)) → c ≢ space → IsAnnots ws → IsAnnots (push c ws)
push-IsAnnots c [] n h = absurd h
push-IsAnnots c (w ∷ []) n h = (n, h)
push-IsAnnots c (w ∷ v ∷ ws) n h = ((n, h.0), h.1)

cons-IsAnnots : (ws : List (List ℕ)) → IsAnnots ws → IsAnnots ([] ∷ ws)
cons-IsAnnots [] h = absurd h
cons-IsAnnots (w ∷ ws) h = (tt, h)

pub split-IsAnnots : (cs : List ℕ) → IsAnnots (split cs)
unfolding split
split-IsAnnots [] = tt
split-IsAnnots (c ∷ cs) = elim (Bool-cases (c == space)) [
  | inl e ↦ rw e (cons-IsAnnots (split cs) (split-IsAnnots cs))
  | inr n ↦ rw n (push-IsAnnots c (split cs) (ground arith) (split-IsAnnots cs))
]
