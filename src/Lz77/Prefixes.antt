-- ===== src/Lz77/Prefixes.antt =====
-- The prefixes of a packet that the rounds of the encoders in src/core/netc_compress.c are about, and the
-- matches they find.
use netc.Prelude.{ℕ, zero, suc, ◌+◌, ◌<◌, ◌≤◌, ◌≡◌, refl, sym, ap, arith, ◌∙◌}
use netc.Prelude.{Bool-cases, inl, inr, List, [], ◌∷◌, ◌++◌, ◌==◌, length, get_or, take, drop}
use netc.Lz77.{copy}
use netc.Lz77.Encode.{match_length}

pub index_eq : (xs : List ℕ) (m n : ℕ) → m ≡ n → get_or xs m 0 ≡ get_or xs n 0
index_eq xs m n e = ap (λ (t : ℕ). get_or xs t 0) e

pub take_eq : (xs : List ℕ) (m n : ℕ) → m ≡ n → take m xs ≡ take n xs
take_eq xs m n e = ap (λ (t : ℕ). take t xs) e

pub get_or-drop : (n k : ℕ) (xs : List ℕ) → get_or (drop n xs) k 0 ≡ get_or xs (n + k) 0
get_or-drop zero k xs = ap (λ (t : ℕ). get_or xs t 0) (omega arith)
get_or-drop (suc n) k [] = refl
get_or-drop (suc n) k (x ∷ xs) =
    get_or-drop n k xs ∙ index_eq (x ∷ xs) (suc (n + k)) (suc n + k) (omega arith)

get_or-take : (n k : ℕ) (xs : List ℕ) → k < n → get_or (take n xs) k 0 ≡ get_or xs k 0
get_or-take zero k xs h = absurd (omega arith)
get_or-take (suc n) k [] h = refl
get_or-take (suc n) zero (x ∷ xs) h = refl
get_or-take (suc n) (suc k) (x ∷ xs) h = get_or-take n k xs (omega arith)

take-next :
    (i : ℕ) (xs : List ℕ) → i < length xs → take i xs ++ (get_or xs i 0 ∷ []) ≡ take (suc i) xs
take-next i [] h = absurd (omega arith)
take-next zero (x ∷ xs) h = refl
take-next (suc i) (x ∷ xs) h = ap (λ t. x ∷ t) (take-next i xs (omega arith))

take-nil : (n : ℕ) → take {A = ℕ} n [] ≡ []
take-nil zero = refl
take-nil (suc n) = refl

pub take-take-drop : (i n : ℕ) (xs : List ℕ) → take i xs ++ take n (drop i xs) ≡ take (i + n) xs
take-take-drop zero n xs = ap (λ (t : ℕ). take t xs) (omega arith)
take-take-drop (suc i) n [] = take-nil n ∙ sym (take-nil (suc i + n))
take-take-drop (suc i) n (x ∷ xs) =
    ap (λ t. x ∷ t) (take-take-drop i n xs)
    ∙ take_eq (x ∷ xs) (suc (i + n)) (suc i + n) (omega arith)

pub take_all : (n : ℕ) (xs : List ℕ) → length xs ≤ n → take n xs ≡ xs
take_all zero [] h = refl
take_all zero (x ∷ xs) h = absurd (omega arith)
take_all (suc n) [] h = refl
take_all (suc n) (x ∷ xs) h = ap (λ t. x ∷ t) (take_all n xs (omega arith))

agree :
    (x y : ℕ) (a b : List ℕ) (n : ℕ)
    → x ≡ y
    → ((k : ℕ) → k < n → get_or a k 0 ≡ get_or b k 0)
    → (k : ℕ) → k < suc n
    → get_or (x ∷ a) k 0 ≡ get_or (y ∷ b) k 0
agree x y a b n e h zero hk = e
agree x y a b n e h (suc k) hk = h k (omega arith)

-- The match is within its bound and both ends, and its bytes agree.
pub match_length_lem :
    (m : ℕ) (a b : List ℕ)
    → let n = match_length m a b in
      (n ≤ m) × (n ≤ length a) × (n ≤ length b) × ((k : ℕ) → k < n → get_or a k 0 ≡ get_or b k 0)
unfolding match_length
match_length_lem zero a b = (omega arith, omega arith, omega arith, λ k h. absurd (omega arith))
match_length_lem (suc m) [] b = (omega arith, omega arith, omega arith, λ k h. absurd (omega arith))
match_length_lem (suc m) (x ∷ a) [] =
    (omega arith, omega arith, omega arith, λ k h. absurd (omega arith))
match_length_lem (suc m) (x ∷ a) (y ∷ b) = elim (Bool-cases (x == y)) [
  | inl same ↦
      let (h1, h2, h3, h4) = match_length_lem m a b in
      rw same (
        omega arith,
        omega arith,
        omega arith,
        λ k hk. agree x y a b (match_length m a b) (ground (arith, same)) h4 k hk,
      )
  | inr differ ↦ rw differ (omega arith, omega arith, omega arith, λ k h. absurd (omega arith))
]

-- A copy from `pos` on, whose bytes agree with those from `i` on, makes the prefix longer.
pub copy_prefix :
    (n pos i : ℕ) (src : List ℕ)
    → pos < i
    → i + n ≤ length src
    → ((k : ℕ) → k < n → get_or src (pos + k) 0 ≡ get_or src (i + k) 0)
    → copy n pos (take i src) ≡ take (i + n) src
unfolding copy
copy_prefix zero pos i src h room same = ap (λ (t : ℕ). take t src) (omega arith)
copy_prefix (suc n) pos i src h room same =
    let same0 : get_or src pos 0 ≡ get_or src i 0 =
      index_eq src (pos) (pos + 0) (omega arith)
      ∙ (same 0 (omega arith) ∙ index_eq src (i + 0) (i) (omega arith)) in
    let byte : take i src ++ (get_or (take i src) pos 0 ∷ []) ≡ take (i + 1) src =
      ap (λ (t : ℕ). take i src ++ (t ∷ [])) (get_or-take i pos src h ∙ same0)
      ∙ (take-next i src (omega arith) ∙ take_eq src (suc i) (i + 1) (omega arith)) in
    ap (copy n (pos + 1)) byte
    ∙ (copy_prefix n (pos + 1) (i + 1) src (omega arith) (omega arith) (λ k hk.
          index_eq src (pos + 1 + k) (pos + suc k) (omega arith)
          ∙ (same (suc k) (omega arith) ∙ index_eq src (i + suc k) (i + 1 + k) (omega arith)))
        ∙ take_eq src (i + 1 + n) (i + suc n) (omega arith))
