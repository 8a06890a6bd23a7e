-- ===== src/Reader/Sound.antt =====
-- Readers that end and take a prefix of their input, one rule for each way to build a reader.
use bnl.Prelude.{
  ℕ, ◌≤◌, ◌≡◌, ◌≢◌, refl, arith, List, [], ◌++◌, length, length-append, All, All-right, IsByte, ap,
  append_assoc, Bool, true, false, if◌then◌else◌, ◌∙◌, sym,
}
use bnl.Error.{Error, Result, ok, err, stuck}
use bnl.Reader.{Reader, ◌>>=◌, pure, fail, continue}

-- `r` is what is left of `s`.
pub record Suffix (s r : List ℕ) : Type 0 where
  pub front : List ℕ
  pub split : s ≡ front ++ r

pub Suffix-refl : (s : List ℕ) → Suffix s s
Suffix-refl s = record { front = []; split = refl }

pub Suffix-trans : {s r t : List ℕ} → Suffix s r → Suffix r t → Suffix s t
Suffix-trans {s} {r} {t} a b = record {
  front = a.front ++ b.front;
  split = a.split ∙ ap (◌++◌ a.front) b.split ∙ sym (append_assoc a.front b.front t);
}

pub Suffix-All : {s r : List ℕ} → Suffix s r → All IsByte s → All IsByte r
Suffix-All {s} {r} a h = All-right IsByte a.front r (rw a.split at h)

pub Suffix-length : {s r : List ℕ} → Suffix s r → length r ≤ length s
Suffix-length {s} {r} a = omega (arith, ap length a.split, length-append a.front r)

-- On bytes the reader returns or fails, and leaves a suffix.
pub record Sound {ℓ} {A : Type ℓ} (m : Reader A) : Type ℓ where
  pub ends : (s : List ℕ) → All IsByte s → (m s).0 ≢ stuck
  pub leaves : (s : List ℕ) → All IsByte s → Suffix s (m s).1

module _ {ℓ} {A : Type ℓ} where
  pub Sound-pure : (a : A) → Sound (pure a)
  Sound-pure a = record { ends = λ s h e. cc; leaves = λ s h. Suffix-refl s }

  pub Sound-fail : (e : Error) → Sound (fail {A = A} e)
  Sound-fail e = record { ends = λ s h p. cc; leaves = λ s h. Suffix-refl s }

  pub Sound-if : (b : Bool) (m n : Reader A) → Sound m → Sound n → Sound (if b then m else n)
  Sound-if true m n p q = p
  Sound-if false m n p q = q

module _ {ℓ κ} {A : Type ℓ} {B : Type κ} where
  continue_ends :
      (r : Result A) (f : A → Reader B) (s : List ℕ)
      → r ≢ stuck
      → ((a : A) → Sound (f a))
      → All IsByte s
      → (continue r f s).0 ≢ stuck
  continue_ends (ok a) f s n k h = (k a).ends s h
  continue_ends (err e) f s n k h = λ p. cc
  continue_ends stuck f s n k h = absurd (n refl)

  pub continue_leaves :
      (r : Result A) (f : A → Reader B) (s : List ℕ)
      → ((a : A) → Sound (f a))
      → All IsByte s
      → Suffix s (continue r f s).1
  continue_leaves (ok a) f s k h = (k a).leaves s h
  continue_leaves (err e) f s k h = Suffix-refl s
  continue_leaves stuck f s k h = Suffix-refl s

  pub Sound-bind :
      (m : Reader A) (f : A → Reader B) → Sound m → ((a : A) → Sound (f a)) → Sound (m >>= f)
  Sound-bind m f p k = record {
    ends = λ s h. continue_ends (m s).0 f (m s).1 (p.ends s h) k (Suffix-All (p.leaves s h) h);
    leaves = λ s h.
        Suffix-trans (p.leaves s h)
          (continue_leaves (m s).0 f (m s).1 k (Suffix-All (p.leaves s h) h));
  }

pub ruleset sound_rules = (Sound-pure, Sound-fail, Sound-bind)

-- The same of one run of a reader.
abbrev pub Run {ℓ} : {A : Type ℓ} → List ℕ → Result A × List ℕ → Type ℓ
Run s p = (p.0 ≢ stuck) × Suffix s p.1

module _ {ℓ} {A : Type ℓ} (s : List ℕ) (x y : Result A × List ℕ) where
  pub Run-elim :
      (b : Bool)
      → (b ≡ false → Run s x)
      → (b ≡ true → Run s y)
      → Run {A = A} s (elim b [ false ↦ x | true ↦ y ])
  Run-elim false p q = p refl
  Run-elim true p q = q refl

pub Run-if {ℓ} :
    {A : Type ℓ} (s : List ℕ) (x y : Result A × List ℕ) (b : Bool)
    → Run {A = A} s x
    → Run {A = A} s y
    → Run {A = A} s (if b then x else y)
Run-if s x y true p q = p
Run-if s x y false p q = q

pub Run-Sound {ℓ} :
    {A : Type ℓ} (m : Reader A) → ((s : List ℕ) → All IsByte s → Run s (m s)) → Sound m
Run-Sound m run = record { ends = λ s h. (run s h).0; leaves = λ s h. (run s h).1 }

pub Sound-Run {ℓ} :
    {A : Type ℓ} (m : Reader A) → Sound m → (s : List ℕ) → All IsByte s → Run s (m s)
Sound-Run m p s h = (p.ends s h, p.leaves s h)

pub Run-trans {ℓ} :
    {A : Type ℓ} (s r : List ℕ) (p : Result A × List ℕ) → Suffix s r → Run r p → Run s p
Run-trans s r p a h = (h.0, Suffix-trans a h.1)
