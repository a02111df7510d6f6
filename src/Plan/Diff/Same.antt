-- ===== src/Plan/Diff/Same.antt =====
-- A world compared with one of the same contents.
use cross_validate.Base.{true, false, some, List, [], ◌∷◌, Memᴰ, ◌≡◌, refl}
use cross_validate.Base.Maps.{lookup}
use cross_validate.Types.Values.{raw_equal, is_plain_raw}
use cross_validate.Types.Values.DeepEqual.{raw_equal_refl}
use cross_validate.Types.World.{World}
use cross_validate.Plan.Diff.{
  ResourceIdentity, identity_instance, ResourceChange, IndexedResource, index_all, diff,
}
use cross_validate.Plan.Diff.Classes.{diff_classes}

nil_of_no_member {ℓ} : {A : Type ℓ} (xs : List A) → ((x : A) → ¬ (Memᴰ x xs)) → xs ≡ []
nil_of_no_member [] h = refl
nil_of_no_member (x ∷ xs) h = absurd (h x (Memᴰ.head refl))

-- Two worlds whose indexes hold the same entries have no difference, if the manifests are as
-- decoding gives them: without repeated keys and without NaN.
pub diff_same :
    (base head : World)
    → ((id : ResourceIdentity) → lookup id (index_all base) ≡ lookup id (index_all head))
    → ((id : ResourceIdentity) (res : IndexedResource)
        → lookup id (index_all base) ≡ some res
        → is_plain_raw res.raw ≡ true)
    → diff base head ≡ record { added = []; removed = []; modified = [] }
diff_same base head same plain = λ i. record {
  added = nil_of_no_member (diff base head).added none_added i;
  removed = nil_of_no_member (diff base head).removed none_removed i;
  modified = nil_of_no_member (diff base head).modified none_modified i;
}
  where
    none_added : (c : ResourceChange) → ¬ (Memᴰ c (diff base head).added)
    none_added c m =
        let (id, res, found, (missing, _)) = (diff_classes base head c).1.0 m in cc (same id)

    none_removed : (c : ResourceChange) → ¬ (Memᴰ c (diff base head).removed)
    none_removed c m =
        let (id, res, found, (missing, _)) = (diff_classes base head c).0.0 m in cc (same id)

    none_modified : (c : ResourceChange) → ¬ (Memᴰ c (diff base head).modified)
    none_modified c m =
        let (id, res, found, (res', found', differ, _)) = (diff_classes base head c).2.0 m in
        let one : res' ≡ res = cc (same id) in
        let d : raw_equal res.raw res.raw ≡ false = rw one at differ in
        cc (raw_equal_refl res.raw (plain id res found))
