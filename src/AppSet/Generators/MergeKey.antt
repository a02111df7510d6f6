-- ===== src/AppSet/Generators/MergeKey.antt =====
-- `mergeKey`: when two parameter sets have the same one.
use cross_validate.Base.{
  String, false, List, [], ◌∷◌, All, ◌↔◌, ◌≢◌, ◌≡◌, refl, sym, ◌∙◌, ap, subst, string_eq, arith,
}
use cross_validate.Base.Texts.{contains, has_prefix, join}
use cross_validate.Types.Argo.{Params}
use cross_validate.Types.World.{text_at}
use cross_validate.AppSet.Generators.{merge_key}
use Prim.Native.Char.{Char}
use Prim.Native.String.{◌++◌}
use text.Mathlib.TextLemmas.{nil-append, cons-append, head-eq_of_cons-eq, tail-eq_of_cons-eq}

-- A text without a zero byte.
abbrev pub LacksZero : String → Type 0
LacksZero s = contains s "\0" ≡ false

mark-append : (u : String) → "\0" ++ u ≡ String.◌∷◌ "\0" u
mark-append u = cons-append "\0" "" u ∙ ap (λ t. String.◌∷◌ "\0" t) (nil-append u)

lacks-head : (c : Char) (s : String) → LacksZero (String.◌∷◌ c s) → c ≢ "\0"
unfolding contains has_prefix
lacks-head c s h e =
    let here : LacksZero (String.◌∷◌ "\0" s) = subst (λ d. LacksZero (String.◌∷◌ d s)) e h in cc

lacks-tail : (c : Char) (s : String) → LacksZero (String.◌∷◌ c s) → LacksZero s
unfolding contains
lacks-tail c s h = ground arith

-- A zero byte marks where a text ends.
ends_alike :
    (s t u v : String)
    → LacksZero s
    → LacksZero t
    → s ++ ("\0" ++ u) ≡ t ++ ("\0" ++ v)
    → (s ≡ t) × (u ≡ v)
ends_alike String.[] String.[] u v hs ht e = (
  refl,
  tail-eq_of_cons-eq (
      sym (mark-append u)
      ∙ sym (nil-append ("\0" ++ u))
      ∙ e
      ∙ nil-append ("\0" ++ v)
      ∙ mark-append v),
)
ends_alike String.[] (String.◌∷◌ d t) u v hs ht e = absurd (
    lacks-head d t ht (
      sym (
        head-eq_of_cons-eq
          (sym (mark-append u) ∙ sym (nil-append ("\0" ++ u)) ∙ e ∙ cons-append d t ("\0" ++ v)))))
ends_alike (String.◌∷◌ c s) String.[] u v hs ht e = absurd (
    lacks-head c s hs (
      head-eq_of_cons-eq
        (sym (cons-append c s ("\0" ++ u)) ∙ e ∙ nil-append ("\0" ++ v) ∙ mark-append v)))
ends_alike (String.◌∷◌ c s) (String.◌∷◌ d t) u v hs ht e =
    let whole = sym (cons-append c s ("\0" ++ u)) ∙ e ∙ cons-append d t ("\0" ++ v) in
    let (same, rest) =
      ends_alike s t u v (lacks-tail c s hs) (lacks-tail d t ht) (tail-eq_of_cons-eq whole) in
    ((λ i. String.◌∷◌ (head-eq_of_cons-eq whole i) (same i)), rest)

-- Two parameter sets whose values under the keys have no zero byte have the same merge key exactly when they have the same value under each key; a missing value counts as "".
pub merge_key-eq :
    (m n : Params) (keys : List String)
    → All (λ k. LacksZero (text_at k m)) keys
    → All (λ k. LacksZero (text_at k n)) keys
    → (merge_key m keys ≡ merge_key n keys) ↔ All (λ k. text_at k m ≡ text_at k n) keys
unfolding merge_key join
merge_key-eq m n [] hm hn = ((λ e. tt), λ h. refl)
merge_key-eq m n (k ∷ []) hm hn = ((λ e. (e, tt)), λ h. h.0)
merge_key-eq m n (k ∷ l ∷ keys) hm hn =
    let later = merge_key-eq m n (l ∷ keys) hm.1 hn.1 in
    (
      (λ e.
          let (here, rest) = ends_alike (text_at k m) (text_at k n) _ _ hm.0 hn.0 e in
          (here, later.0 rest)),
      λ h. (λ i. h.0 i ++ ("\0" ++ later.1 h.1 i)),
    )
