-- ===== src/Common/Decimal.antt =====
-- Decimal texts: a number is read back from its digits, so no two numbers have the same text.
use Prim.Native.Nat.{ℕ, zero, suc, ◌+◌, ◌*◌, ◌/◌, ◌%◌, ◌<◌}
use Prim.Native.Char.{Char, code}
use Prim.Native.String.{String, ◌++◌, slice}
use Prim.Native.String.append
use text.Mathlib.TextLemmas.{
  head-eq_of_cons-eq, tail-eq_of_cons-eq, append_cancel_left, append_cancel_right,
}
use mathlib.Core.Path.{◌≡◌, refl, sym, ap, ◌∙◌}
use mathlib.Core.Logic.{◌≢◌, inl, inr}
use mathlib.Core.Option.{Option, none, some}
use native.Mathlib.Omega.{arith}
use kubernetes_operators.Common.{ltb, Bool-cases, read_digits, show_digits, show_nat, concat}
use mathlib.Core.List.{[], ◌∷◌}
use kubernetes_operators.Common.Int.{ℤ, pos, negsuc, show_int}

read_digit :
    (d k : ℕ) (acc : String)
    → d < 10
    → read_digits (slice "0123456789" d (d + 1) ++ acc) k ≡ read_digits acc (k * 10 + d)
unfolding read_digits
read_digit zero k acc lt = rw (append.cons "0" "" acc, append.nil acc) refl
read_digit (suc zero) k acc lt = rw (append.cons "1" "" acc, append.nil acc) refl
read_digit (suc (suc zero)) k acc lt = rw (append.cons "2" "" acc, append.nil acc) refl
read_digit (suc (suc (suc zero))) k acc lt = rw (append.cons "3" "" acc, append.nil acc) refl
read_digit (suc (suc (suc (suc zero)))) k acc lt = rw (append.cons "4" "" acc, append.nil acc) refl
read_digit (suc (suc (suc (suc (suc zero))))) k acc lt =
    rw (append.cons "5" "" acc, append.nil acc) refl
read_digit (suc (suc (suc (suc (suc (suc zero)))))) k acc lt =
    rw (append.cons "6" "" acc, append.nil acc) refl
read_digit (suc (suc (suc (suc (suc (suc (suc zero))))))) k acc lt =
    rw (append.cons "7" "" acc, append.nil acc) refl
read_digit (suc (suc (suc (suc (suc (suc (suc (suc zero)))))))) k acc lt =
    rw (append.cons "8" "" acc, append.nil acc) refl
read_digit (suc (suc (suc (suc (suc (suc (suc (suc (suc zero))))))))) k acc lt =
    rw (append.cons "9" "" acc, append.nil acc) refl
read_digit (suc (suc (suc (suc (suc (suc (suc (suc (suc (suc d)))))))))) k acc lt =
    absurd (omega arith)

-- Reading the digits of `n` and then `acc` is reading `acc` after `n`.
read-show :
    (f n : ℕ) (acc : String) → n < f → read_digits (show_digits f n acc) 0 ≡ read_digits acc n
unfolding show_digits
read-show zero n acc lt = absurd (omega arith)
read-show (suc f) n acc lt =
    let digit = slice "0123456789" (n % 10) (n % 10 + 1) in
    let front = read_digit (n % 10) (n / 10) acc (omega arith) in
    let value : (n / 10) * 10 + n % 10 ≡ n = omega arith in
    elim (Bool-cases (ltb n 10)) [
      | inl e ↦ rw e (read_digit (n % 10) 0 acc (omega arith) ∙ ap (read_digits acc) (ground arith))
      | inr e ↦
          rw e (
            read-show f (n / 10) (digit ++ acc) (ground arith) ∙ front ∙ ap (read_digits acc) value)
    ]

pub read-show_nat : (n : ℕ) → read_digits (show_nat n) 0 ≡ some n
unfolding show_nat read_digits
read-show_nat n = read-show (suc n) n "" (omega arith)

Option-inj : {a b : ℕ} → ◌≡◌ {A = Option ℕ} (some a) (some b) → a ≡ b
Option-inj {a} e = ap (λ (o : Option ℕ). elim o [ none ↦ a | some x ↦ x ]) e

show_nat-inj : (m n : ℕ) → show_nat m ≡ show_nat n → m ≡ n
show_nat-inj m n e =
    Option-inj (sym (read-show_nat m) ∙ ap (λ (s : String). read_digits s 0) e ∙ read-show_nat n)

read-minus : (s : String) → read_digits (concat ("-" ∷ s ∷ [])) 0 ≡ none
unfolding read_digits
read-minus s = rw (append.cons "-" "" (s ++ "")) refl

sign_differs : (m n : ℕ) → ¬ (show_nat m ≡ concat ("-" ∷ show_nat n ∷ []))
sign_differs m n e =
    let h : ◌≡◌ {A = Option ℕ} (some m) none =
      sym (read-show_nat m) ∙ ap (λ (s : String). read_digits s 0) e ∙ read-minus (show_nat n) in
    cc

-- Two integers have the same text only if they are the same.
pub show_int-inj : (a b : ℤ) → show_int a ≡ show_int b → a ≡ b
unfolding show_int
show_int-inj (pos m) (pos n) e = ap pos (show_nat-inj m n e)
show_int-inj (pos m) (negsuc n) e = absurd (sign_differs m (suc n) e)
show_int-inj (negsuc m) (pos n) e = absurd (sign_differs n (suc m) (sym e))
show_int-inj (negsuc m) (negsuc n) e =
    let h =
      show_nat-inj (suc m) (suc n) (append_cancel_right _ _ "" (append_cancel_left "-" _ _ e)) in
    ap negsuc (omega (arith, h))

-- No character of the text has the code `k`.
abbrev pub Lacks : ℕ → String → Type 0
Lacks k String.[] = Unit
Lacks k (String.◌∷◌ c s) = (code c ≢ k) × Lacks k s

-- A text is cut in one way only at the first character of a code.
pub cut_once :
    (d : Char) (s t u v : String)
    → Lacks (code d) s
    → Lacks (code d) t
    → s ++ String.◌∷◌ d u ≡ t ++ String.◌∷◌ d v
    → (s ≡ t) × (u ≡ v)
cut_once d String.[] String.[] u v ls lt e =
    (refl, tail-eq_of_cons-eq (sym (append.nil _) ∙ e ∙ append.nil _))
cut_once d String.[] (String.◌∷◌ b t) u v ls lt e =
    absurd (lt.0 (ap code (sym (head-eq_of_cons-eq (sym (append.nil _) ∙ e ∙ append.cons b t _)))))
cut_once d (String.◌∷◌ a s) String.[] u v ls lt e =
    absurd (ls.0 (ap code (head-eq_of_cons-eq (sym (append.cons a s _) ∙ e ∙ append.nil _))))
cut_once d (String.◌∷◌ a s) (String.◌∷◌ b t) u v ls lt e =
    let h = sym (append.cons a s _) ∙ e ∙ append.cons b t _ in
    let (p, q) = cut_once d s t u v ls.1 lt.1 (tail-eq_of_cons-eq h) in
    (ap (λ (c : Char). String.◌∷◌ c s) (head-eq_of_cons-eq h) ∙ ap (String.◌∷◌ b) p, q)
