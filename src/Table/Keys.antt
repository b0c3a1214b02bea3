-- ===== src/Table/Keys.antt =====
-- The keys of a table fall from the newest row to the oldest, below the next key.
use mbarara_auction.Prelude.{ℕ, ◌≤◌, ◌<◌, ◌≡◌, refl, none, List, [], ◌∷◌, arith}
use mbarara_auction.Table.{Table, get, modify, create, find, change}

module _ {A : Type 0} where
  abbrev pub KeysBelow : List (ℕ × A) → ℕ → Type 0
  KeysBelow [] n = Unit
  KeysBelow ((k, a) ∷ rows) n = (k < n) × KeysBelow rows k

  abbrev pub IsKeyed : Table A → Type 0
  IsKeyed t = KeysBelow t.rows t.next

  pub find-KeysBelow :
      (k n : ℕ) (rows : List (ℕ × A)) → KeysBelow rows n → n ≤ k → find k rows ≡ none
  find-KeysBelow k n [] h le = refl
  find-KeysBelow k n ((j, a) ∷ rows) h le = ground (arith, find-KeysBelow k j rows h.1)

  pub KeysBelow-change :
      (k n : ℕ) (f : A → A) (rows : List (ℕ × A)) → KeysBelow rows n → KeysBelow (change k f rows) n
  KeysBelow-change k n f [] h = tt
  KeysBelow-change k n f ((j, a) ∷ rows) h = (h.0, KeysBelow-change k j f rows h.1)

  pub change-none :
      (k : ℕ) (f : A → A) (rows : List (ℕ × A)) → find k rows ≡ none → change k f rows ≡ rows
  change-none k f [] h = refl
  change-none k f ((j, a) ∷ rows) h = ground (arith, change-none k f rows)

  pub modify-IsKeyed : (k : ℕ) (f : A → A) (t : Table A) → IsKeyed t → IsKeyed (modify k f t)
  unfolding modify
  modify-IsKeyed k f t h = KeysBelow-change k t.next f t.rows h

  pub create-IsKeyed : (a : A) (t : Table A) → IsKeyed t → IsKeyed (create a t)
  unfolding create
  create-IsKeyed a t h = (omega arith, h)

  -- A new row is found under the key that it was given, and its key was free.
  pub get-next : (t : Table A) → IsKeyed t → get t.next t ≡ none
  unfolding get
  get-next t h = find-KeysBelow t.next t.next t.rows h (omega arith)
