-- ===== src/Tracing/Correlation.antt =====
-- `CorrelationID` of internal/tracing/tracing.go.
use Prim.Native.Char.{Char}
use Prim.Native.String.append
use Prim.Native.String.{◌++◌}
use kubernetes_operators.Common.{String, ◌≡◌, sym, ap, ◌∙◌}
use kubernetes_operators.Common.Int.{ℤ}
use kubernetes_operators.Common.Decimal.{Lacks, cut_once, show_int-inj}
use text.Mathlib.TextLemmas.{append_cancel_right}
use kubernetes_operators.Tracing.{correlation_id}

one_char : (c : Char) (t : String) → String.◌∷◌ c "" ++ t ≡ String.◌∷◌ c t
one_char c t = append.cons c "" t ∙ ap (String.◌∷◌ c) (append.nil t)

-- Two reconciliations have the same correlation ID only if the namespaces, the names and the
-- generations are the same, provided that no namespace holds a '/' and no name an '@'.
correlation_id-inj :
    (namespace namespace' name name' : String) (generation generation' : ℤ)
    → Lacks b'/' namespace
    → Lacks b'/' namespace'
    → Lacks b'@' name
    → Lacks b'@' name'
    → correlation_id namespace name generation ≡ correlation_id namespace' name' generation'
    → (namespace ≡ namespace') × (name ≡ name') × (generation ≡ generation')
unfolding correlation_id
correlation_id-inj namespace namespace' name name' generation generation' a a' b b' e =
    let (p, rest) = cut_once "/" namespace namespace' _ _ a a' (
      sym (ap (λ (t : String). namespace ++ t) (one_char "/" _))
      ∙ e
      ∙ ap (λ (t : String). namespace' ++ t) (one_char "/" _)) in
    let (q, shown) = cut_once "@" name name' _ _ b b' (
      sym (ap (λ (t : String). name ++ t) (one_char "@" _))
      ∙ rest
      ∙ ap (λ (t : String). name' ++ t) (one_char "@" _)) in
    (p, q, show_int-inj generation generation' (append_cancel_right _ _ "" shown))
