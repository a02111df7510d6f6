-- ===== src/Ir/Paths/Compare.antt =====
-- `ReadPath` on two manifests that are compared.
use cross_validate.Base.{
  String, true, Option, none, some, List, [], ◌∷◌, ◌≡◌, refl, ◌==◌, string_eq, Bool-cases, inl, inr,
  ◌>>=◌, if◌then◌else◌,
}
use cross_validate.Base.Texts.{split_on}
use cross_validate.Types.Values.{Value, obj, Raw, deep_equal, raw_equal}
use cross_validate.Types.Values.Members.{deep_equal-get}
use cross_validate.Ir.Paths.{read_segments, read_path}

bind-eq-some {ℓ κ} :
    {A : Type ℓ} {B : Type κ} (o : Option A) (f : A → Option B) {b : B}
    → (o >>= f) ≡ some b
    → (a : A) × (o ≡ some a) × (f a ≡ some b)
bind-eq-some none f h = cc
bind-eq-some (some a) f h = (a, refl, h)

unless_blank {ℓ} :
    {A : Type ℓ} (k : String) (o : Option A) {a : A}
    → (if k == "" then none else o) ≡ some a
    → o ≡ some a
unless_blank k o h = elim (Bool-cases (k == "")) [
  | inl blank ↦ let gone : none ≡ some _ = rw blank at h in cc
  | inr named ↦ rw named at h
]

read_segments_equal :
    (ks : List String) (x y v w : Value)
    → deep_equal x y ≡ true
    → read_segments x ks ≡ some v
    → read_segments y ks ≡ some w
    → deep_equal v w ≡ true
unfolding read_segments
read_segments_equal [] x y v w h e e' = cc
read_segments_equal (k ∷ []) x y v w h e e' =
    let (m, mapped, found) = bind-eq-some _ _ (unless_blank k _ e) in
    let (n, mapped', found') = bind-eq-some _ _ (unless_blank k _ e') in
    deep_equal-get k x y v w m n h mapped mapped' found found'
read_segments_equal (k ∷ j ∷ ks) x y v w h e e' =
    let (m, mapped, rest) = bind-eq-some _ _ (unless_blank k _ e) in
    let (n, mapped', rest') = bind-eq-some _ _ (unless_blank k _ e') in
    let (a, found, more) = bind-eq-some _ _ rest in
    let (b, found', more') = bind-eq-some _ _ rest' in
    read_segments_equal (j ∷ ks) a b v w
      (deep_equal-get k x y a b m n h mapped mapped' found found') more more'

pub read_path_equal :
    (base head : Raw) (path : String) (v w : Value)
    → raw_equal base head ≡ true
    → read_path base path ≡ some v
    → read_path head path ≡ some w
    → deep_equal v w ≡ true
unfolding read_path raw_equal
read_path_equal (some b) (some h) path v w same e e' =
    read_segments_equal (split_on b'.' path) (obj b) (obj h) v w same (unless_blank path _ e)
      (unless_blank path _ e')
read_path_equal none head path v w same e e' = cc
read_path_equal (some b) none path v w same e e' = cc
