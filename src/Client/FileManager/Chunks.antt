-- ===== src/Client/FileManager/Chunks.antt =====
-- Files as rows of chunks of `n` bytes: what a write of one chunk does to the others.
use native.Mathlib.Nat.{suc-mul, zero-mul}
use p2p_network.Base.{
  ℕ, zero, suc, ◌+◌, ◌-◌, ◌*◌, ◌≤◌, ◌≡◌, refl, ap, sym, ◌∙◌, List, [], ◌∷◌, ◌++◌, arith, ◌==◌,
  if◌then◌else◌, length, take, drop, length-take, length-append, take-append-drop, ◌<◌,
  length-replicate, replicate, length-drop, take-append, drop-append, append-nil, append_assoc,
}
use p2p_network.Client.FileManager.{write_at}

drop-nil : (b : ℕ) → drop {A = ℕ} b [] ≡ []
drop-nil zero = refl
drop-nil (suc b) = refl

take-nil : (b : ℕ) → take {A = ℕ} b [] ≡ []
take-nil zero = refl
take-nil (suc b) = refl

drop-drop : (a b c : ℕ) (xs : List ℕ) → c ≡ a + b → drop c xs ≡ drop b (drop a xs)
drop-drop zero b c xs h = ap (λ k. drop k xs) (let e : c ≡ b = omega arith in e)
drop-drop (suc a) b zero xs h = absurd (omega arith)
drop-drop (suc a) b (suc c) [] h = sym (drop-nil b)
drop-drop (suc a) b (suc c) (x ∷ xs) h = drop-drop a b c xs (omega arith)

take-add : (a b c : ℕ) (xs : List ℕ) → c ≡ a + b → take c xs ≡ take a xs ++ take b (drop a xs)
take-add zero b c xs h = ap (λ k. take k xs) (let e : c ≡ b = omega arith in e)
take-add (suc a) b zero xs h = absurd (omega arith)
take-add (suc a) b (suc c) [] h = sym (take-nil b)
take-add (suc a) b (suc c) (x ∷ xs) h = ap (◌∷◌ x) (take-add a b c xs (omega arith))

module _ (n : ℕ) where
  -- The chunk `i` of a file.
  unfoldable pub chunk : ℕ → List ℕ → List ℕ
  chunk i xs = take n (drop (i * n) xs)

  pub chunk-zero : (xs : List ℕ) → chunk zero xs ≡ take n xs
  unfolding chunk
  chunk-zero xs = rw (zero-mul n)

  pub chunk-suc : (i : ℕ) (xs : List ℕ) → chunk (suc i) xs ≡ chunk i (drop n xs)
  unfolding chunk
  chunk-suc i xs = ap (take n) (drop-drop n (i * n) (suc i * n) xs (omega (arith, suc-mul i n)))

  splice : ℕ → List ℕ → List ℕ → List ℕ
  splice zero new xs = new ++ drop n xs
  splice (suc i) new xs = take n xs ++ splice i new (drop n xs)

  splice_lem :
      (i : ℕ) (new xs : List ℕ) → take (i * n) xs ++ (new ++ drop (i * n + n) xs) ≡ splice i new xs
  unfolding splice
  splice_lem zero new xs =
      rw (zero-mul n) (ap (λ k. new ++ drop k xs) (let e : 0 + n ≡ n = omega arith in e))
  splice_lem (suc i) new xs = rw (
    take-add n (i * n) (suc i * n) xs (omega (arith, suc-mul i n)),
    drop-drop n (i * n + n) (suc i * n + n) xs (omega (arith, suc-mul i n)),
    append_assoc,
    splice_lem i new (drop n xs),
  )

  chunk-splice :
      (i j : ℕ) (new xs : List ℕ)
      → length new ≡ n
      → i * n ≤ length xs
      → chunk j (splice i new xs) ≡ (if i == j then new else chunk j xs)
  unfolding splice
  chunk-splice zero zero new xs h fits = chunk-zero _ ∙ take-append new (drop n xs) n (sym h)
  chunk-splice zero (suc j) new xs h fits =
      ground (
        arith,
        chunk-suc j (new ++ drop n xs),
        drop-append new (drop n xs) n (sym h),
        chunk-suc j xs,
      )
  chunk-splice (suc i) zero new xs h fits =
      let first : n ≡ length (take n xs) = omega (arith, length-take n xs, suc-mul i n) in
      ground (
        arith,
        chunk-zero (take n xs ++ splice i new (drop n xs)),
        take-append (take n xs) (splice i new (drop n xs)) n first,
        chunk-zero xs,
      )
  chunk-splice (suc i) (suc j) new xs h fits =
      let first : n ≡ length (take n xs) = omega (arith, length-take n xs, suc-mul i n) in
      let rest : i * n ≤ length (drop n xs) = omega (arith, length-drop n xs, suc-mul i n) in
      ground (
        arith,
        chunk-suc j (take n xs ++ splice i new (drop n xs)),
        drop-append (take n xs) (splice i new (drop n xs)) n first,
        chunk-splice i j new (drop n xs) h rest,
        chunk-suc j xs,
      )

  pub chunk-write_at :
      (i j : ℕ) (new xs : List ℕ)
      → length new ≡ n
      → i * n ≤ length xs
      → chunk j (write_at xs (i * n) new) ≡ (if i == j then new else chunk j xs)
  unfolding write_at
  chunk-write_at i j new xs h fits =
      let short : i * n - length xs ≡ 0 = omega arith in
      rw (short, append-nil (take (i * n) xs), h, splice_lem i new xs)
        (chunk-splice i j new xs h fits)

pub length-write_at_max :
    (xs new : List ℕ) (p : ℕ)
    → p ≤ length xs
    → length (write_at xs p new) ≡ p + length new + (length xs - (p + length new))
unfolding write_at
length-write_at_max xs new p inside = omega (
  arith,
  length-append (take p xs ++ replicate (p - length xs) 0) (new ++ drop (p + length new) xs),
  length-append (take p xs) (replicate (p - length xs) 0),
  length-append new (drop (p + length new) xs),
  length-take p xs,
  length-replicate {A = ℕ} (p - length xs) 0,
  length-drop (p + length new) xs,
)

-- Two files of no more than `k` chunks are equal if their chunks are.
pub eq_of_chunks :
    (n k : ℕ) (xs ys : List ℕ)
    → length xs ≤ k * n
    → length ys ≤ k * n
    → ((j : ℕ) → j < k → chunk n j xs ≡ chunk n j ys)
    → xs ≡ ys
eq_of_chunks n zero [] [] hx hy same = refl
eq_of_chunks n zero (x ∷ xs) ys hx hy same = absurd (omega (arith, zero-mul n))
eq_of_chunks n zero [] (y ∷ ys) hx hy same = absurd (omega (arith, zero-mul n))
eq_of_chunks n (suc k) xs ys hx hy same =
    let first : take n xs ≡ take n ys =
      sym (chunk-zero n xs) ∙ same 0 (omega arith) ∙ chunk-zero n ys in
    let rest : drop n xs ≡ drop n ys =
      eq_of_chunks n k (drop n xs) (drop n ys) (omega (arith, length-drop n xs, suc-mul k n))
        (omega (arith, length-drop n ys, suc-mul k n))
        (λ j below. sym (chunk-suc n j xs) ∙ same (suc j) (omega arith) ∙ chunk-suc n j ys) in
    sym (take-append-drop n xs) ∙ rw (first, rest) (take-append-drop n ys)
