-- ===== src/Queue/Tracks.antt =====
-- `Tracks` and the operations on the offset set of ProcessQueueImpl.cpp.
use rocketmq_client_cpp.Prelude.{
  ℕ, ◌+◌, ◌≤◌, ◌<◌, ◌≡◌, refl, sym, ◌∙◌, ◌⊎◌, inl, inr, true, false, some, List, [], ◌∷◌, arith, ap,
  subst,
}
use rocketmq_client_cpp.Queue.Offsets.{
  OffsetRecord, emplace, erase, forget_released, release_offset, committed,
}
use rocketmq_client_cpp.Queue.Tracking.{
  count, hits, SortedFrom, Unreleased, SortedFrom-emplace, Unreleased-emplace, hits-emplace,
  SortedFrom-erase, Unreleased-erase, hits-erase, hits-le-one, hits-front, Tracks, open_records,
  sole_released,
}

count-nil : (xs : List ℕ) → ((o : ℕ) → count o xs ≡ 0) → xs ≡ []
count-nil [] h = refl
count-nil (x ∷ xs) h = absurd (ground (arith, h x))

-- Only the number of times that an offset is outstanding matters, not the order.
pub Tracks-perm :
    (out out' : List ℕ) (rs : List OffsetRecord)
    → ((o : ℕ) → count o out' ≡ count o out)
    → Tracks out rs
    → Tracks out' rs
Tracks-perm out out' rs h (open_records s u k) = open_records s u (λ o. h o ∙ k o)
Tracks-perm out out' rs h (sole_released r e l n) =
    sole_released r e l (count-nil out' (λ o. h o ∙ ap (count o) n))

abbrev pub fresh_record : ℕ → OffsetRecord
fresh_record o = record { offset = o; released = false }

forget-Unreleased : (rs : List OffsetRecord) → Unreleased rs → forget_released rs ≡ rs
unfolding forget_released
forget-Unreleased [] u = refl
forget-Unreleased (x ∷ []) u = ground arith
forget-Unreleased (x ∷ y ∷ xs) u = refl

emplace_open :
    (o : ℕ) (out : List ℕ) (rs : List OffsetRecord)
    → count o out ≡ 0
    → SortedFrom 0 rs
    → Unreleased rs
    → ((p : ℕ) → count p out ≡ hits p rs)
    → Tracks (o ∷ out) (emplace (fresh_record o) rs)
emplace_open o out rs f s u k =
    open_records (SortedFrom-emplace 0 (fresh_record o) rs s (omega arith))
      (Unreleased-emplace (fresh_record o) rs refl u)
      (λ p. ground (arith, k p, k o, hits-emplace p (fresh_record o) rs))

-- Caching a message whose offset is not outstanding.
pub Tracks-cache :
    (o : ℕ) (out : List ℕ) (rs : List OffsetRecord)
    → count o out ≡ 0
    → Tracks out rs
    → Tracks (o ∷ out) (emplace (fresh_record o) (forget_released rs))
Tracks-cache o out rs f (open_records s u k) =
    subst (λ l. Tracks (o ∷ out) (emplace (fresh_record o) l)) (sym (forget-Unreleased rs u))
      (emplace_open o out rs f s u k)
Tracks-cache o out rs f (sole_released r e l n) =
    subst (λ l. Tracks (o ∷ out) (emplace (fresh_record o) l)) (sym forgotten)
      (subst (λ xs. Tracks (o ∷ xs) (emplace (fresh_record o) [])) (sym n)
        (emplace_open o [] [] refl tt tt (λ p. refl)))
  where
    forgotten : forget_released rs ≡ []
    forgotten = unfold forget_released in (ground arith)

-- A release of the last outstanding offset leaves its record, marked.
release_sole :
    (o : ℕ) (out' : List ℕ) (x : OffsetRecord)
    → ((p : ℕ) → hits p (x ∷ []) ≡ count p (o ∷ out'))
    → (rs' : List OffsetRecord) × (release_offset o (x ∷ []) ≡ some rs') × Tracks out' rs'
unfolding release_offset
release_sole o out' x k = (
  record { offset = o; released = true } ∷ [],
  ground (arith, k o),
  sole_released (record { offset = o; released = true }) refl refl
      (count-nil out' (λ p. ground (arith, k p, k o, k x.offset))),
)

release_open :
    (o : ℕ) (out' : List ℕ) (rs : List OffsetRecord)
    → SortedFrom 0 rs
    → Unreleased rs
    → ((p : ℕ) → hits p rs ≡ count p (o ∷ out'))
    → (rs' : List OffsetRecord) × (release_offset o rs ≡ some rs') × Tracks out' rs'
unfolding release_offset
release_open o out' [] s u k = absurd (ground (arith, k o))
release_open o out' (x ∷ []) s u k = release_sole o out' x k
release_open o out' (x ∷ y ∷ xs) s u k = (
  erase o (x ∷ y ∷ xs),
  refl,
  open_records (SortedFrom-erase 0 o (x ∷ y ∷ xs) s) (Unreleased-erase o (x ∷ y ∷ xs) u)
      (λ p. ground (arith, k p, hits-le-one 0 p (x ∷ y ∷ xs) s, hits-erase 0 o p (x ∷ y ∷ xs) s)),
)

-- Releasing an outstanding offset never meets a failed assertion.
pub Tracks-release :
    (o : ℕ) (out out' : List ℕ) (rs : List OffsetRecord)
    → ((p : ℕ) → count p out ≡ count p (o ∷ out'))
    → Tracks out rs
    → (rs' : List OffsetRecord) × (release_offset o rs ≡ some rs') × Tracks out' rs'
Tracks-release o out out' rs h (open_records s u k) =
    release_open o out' rs s u (λ p. sym (k p) ∙ h p)
Tracks-release o out out' rs h (sole_released r e l n) = absurd (ground (arith, n, h o))

-- Nothing outstanding lies before the committed offset.
pub Tracks-committed :
    (o c : ℕ) (out : List ℕ) (rs : List OffsetRecord)
    → Tracks out rs
    → committed rs ≡ some c
    → 0 < count o out
    → c ≤ o
unfolding committed
Tracks-committed o c out [] (open_records s u k) e h = cc
Tracks-committed o c out (x ∷ xs) (open_records s u k) e h =
    ground (arith, k o, hits-front o x.offset (x ∷ xs))
Tracks-committed o c out rs (sole_released r q l n) e h = absurd (ground arith)

-- When nothing is outstanding the committed offset is behind the offset released last.
pub Tracks-drained :
    (out : List ℕ) (rs : List OffsetRecord)
    → Tracks out rs
    → out ≡ []
    → (rs ≡ []) ⊎ ((r : OffsetRecord) × (committed rs ≡ some (r.offset + 1)) × (rs ≡ r ∷ []))
unfolding committed
Tracks-drained out [] (open_records s u k) e = inl refl
Tracks-drained out (x ∷ xs) (open_records s u k) e = absurd (ground (arith, k x.offset))
Tracks-drained out rs (sole_released r q l n) e = inr (r, ground arith, q)
