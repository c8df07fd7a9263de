-- ===== src/Shim/Monitor/Books.antt =====
-- The books of positions that the loop of scripts/ea_shim.py compares, by tickets.
use exec_relay.Base.{
  ℕ, ◌+◌, ◌-◌, ◌≡◌, refl, true, false, Option, none, some, List, [], ◌∷◌, arith, ◌==◌,
  if◌then◌else◌, Bool-cases, inl, inr,
}
use exec_relay.Shim.Terminal.{Position}
use exec_relay.Shim.Watched.{CloseNote, enter, enter_own, book_of, has}

module _ {F : Type 0} where
  -- The entries of the log for a position.
  abbrev pub reports : ℕ → List (CloseNote F) → ℕ
  reports k [] = 0
  reports k (n ∷ log) = (if k == n.position then 1 else 0) + reports k log

  abbrev pub present : ℕ → Option (List (Position F)) → ℕ
  present k none = 0
  present k (some book) = if has k book then 1 else 0

  -- Whether a position has come into the book.
  abbrev pub arrival : ℕ → Option (List (Position F)) → Option (List (Position F)) → ℕ
  arrival k before after = present k after - present k before

  -- One entry for each ticket.
  abbrev pub IsBook : List (Position F) → Type 0
  IsBook [] = Unit {0}
  IsBook (p ∷ book) = (has p.ticket book ≡ false) × IsBook book

  abbrev pub IsKnown : Option (List (Position F)) → Type 0
  IsKnown none = Unit {0}
  IsKnown (some book) = IsBook book

  has-enter :
      (k : ℕ) (p : Position F) (book : List (Position F))
      → has k (enter p book) ≡ (if k == p.ticket then true else has k book)
  unfolding has enter
  has-enter k p [] = refl
  has-enter k p (q ∷ book) = ground (arith, has-enter k p book)

  has_same : (j k : ℕ) (book : List (Position F)) → (j == k) ≡ true → has j book ≡ has k book
  has_same j k book e = let q : j ≡ k = ground arith in rw q refl

  enter-IsBook : (p : Position F) (book : List (Position F)) → IsBook book → IsBook (enter p book)
  unfolding enter has
  enter-IsBook p [] h = (refl, tt)
  enter-IsBook p (q ∷ book) h = elim (Bool-cases (p.ticket == q.ticket)) [
    | inl e ↦ rw e (rw (has_same p.ticket q.ticket book e) h)
    | inr e ↦ rw e (ground (arith, has-enter q.ticket p book), enter-IsBook p book h.1)
  ]

  enter_own-IsBook :
      (magic : ℕ) (ps book : List (Position F)) → IsBook book → IsBook (enter_own magic ps book)
  unfolding enter_own
  enter_own-IsBook magic [] book h = h
  enter_own-IsBook magic (p ∷ ps) book h = elim (Bool-cases (p.magic == magic)) [
    | inl e ↦ rw e (enter_own-IsBook magic ps (enter p book) (enter-IsBook p book h))
    | inr e ↦ rw e (enter_own-IsBook magic ps book h)
  ]

  pub book_of-IsBook : (magic : ℕ) (ps : List (Position F)) → IsBook (book_of magic ps)
  unfolding book_of
  book_of-IsBook magic ps = enter_own-IsBook magic ps [] tt

  -- The known positions with the ticket that are not in the new book.
  unfoldable pub gone : ℕ → List (Position F) → List (Position F) → ℕ
  gone k current [] = 0
  gone k current (p ∷ ps) =
      (if has p.ticket current then 0 else if k == p.ticket then 1 else 0) + gone k current ps

  gone_none : (k : ℕ) (current ps : List (Position F)) → has k ps ≡ false → gone k current ps ≡ 0
  unfolding gone has
  gone_none k current [] h = refl
  gone_none k current (p ∷ ps) h = ground (arith, gone_none k current ps)

  pub gone-eq :
      (k : ℕ) (current ps : List (Position F))
      → IsBook ps
      → gone k current ps ≡ (if has k ps then if has k current then 0 else 1 else 0)
  unfolding gone has
  gone-eq k current [] h = refl
  gone-eq k current (p ∷ ps) h = elim (Bool-cases (k == p.ticket)) [
    | inl e ↦
        ground
          (arith, gone_none k current ps, has_same k p.ticket ps e, has_same k p.ticket current e)
    | inr e ↦ rw e (ground (arith, gone-eq k current ps h.1))
  ]

  unfoldable pub gone_known : ℕ → List (Position F) → Option (List (Position F)) → ℕ
  gone_known k current none = 0
  gone_known k current (some known) = gone k current known

  -- Gone and arrived positions settle the difference of two books.
  pub balance :
      (k : ℕ) (current : List (Position F)) (known : Option (List (Position F))) (before after : ℕ)
      → IsKnown known
      → after ≡ before + gone_known k current known
      → after + present k (some current) ≡ before + present k known + arrival k known (some current)
  unfolding gone_known
  balance k current none before after h e = ground (arith, e)
  balance k current (some known) before after h e = ground (arith, e, gone-eq k current known h)
