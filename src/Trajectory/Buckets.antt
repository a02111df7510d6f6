-- ===== src/Trajectory/Buckets.antt =====
-- Which waves have a bucket, and what the two loops of a wave list in the delta.
use cross_validate.Base.{
  any-append, Bool, true, false, ◌&&◌, ◌||◌, not, List, [], ◌∷◌, All, ◌==◌, any, ◌≡◌, refl, subst,
  ap, ◌∙◌, arith, Bool-cases, inl, inr, eq_of_beq,
}
use cross_validate.Base.Int.{ℤ, integer_eq, int_eq_iff}
use cross_validate.Base.Maps.{lookup, insert, has, IsMap, insert-IsMap, lookup-insert}
use cross_validate.Base.Sorting.Strict.{Pairwise}
use cross_validate.Types.World.{ResourceInfo}
use cross_validate.Trajectory.{
  ResourceKey, key_instance, key_of, WaveBucket, wave_of, fill_buckets, waves, in_state, create_all,
  delete_all,
}
use cross_validate.Trajectory.Waves.{in_wave, in_state-select}

pub fill_buckets-IsMap :
    (rs : List ResourceInfo) (out : List (ℤ × WaveBucket)) → IsMap out → IsMap (fill_buckets out rs)
unfolding fill_buckets
fill_buckets-IsMap [] out h = h
fill_buckets-IsMap (r ∷ rs) out h = fill_buckets-IsMap rs _ (insert-IsMap (wave_of r) _ out h)

has_put : (same found later : Bool) → ((same || found) || later) ≡ (found || (same || later))
has_put same found later = ground arith

has-insert :
    (put asked : ℤ) (b : WaveBucket) (m : List (ℤ × WaveBucket))
    → has asked (insert put b m) ≡ (put == asked || has asked m)
has-insert put asked b m =
    rw (lookup-insert put asked b m)
      (elim (Bool-cases (put == asked)) [ inl same ↦ rw same refl | inr other ↦ rw other refl ])

has-fill_buckets :
    (w : ℤ) (rs : List ResourceInfo) (out : List (ℤ × WaveBucket))
    → has w (fill_buckets out rs) ≡ (has w out || any (in_wave w) rs)
unfolding fill_buckets
has-fill_buckets w [] out = ground arith
has-fill_buckets w (r ∷ rs) out =
    has-fill_buckets w rs _
    ∙ ap (λ b. b || any (in_wave w) rs) (has-insert (wave_of r) w _ out)
    ∙ has_put (in_wave w r) (has w out) (any (in_wave w) rs)

any-waves : (w : ℤ) (m : List (ℤ × WaveBucket)) → any (λ v. v == w) (waves m) ≡ has w m
unfolding lookup
any-waves w [] = refl
any-waves w ((v, b) ∷ m) = elim (Bool-cases (v == w)) [
  | inl same ↦ rw same refl
  | inr other ↦ rw other (any-waves w m)
]

-- There is a bucket for exactly the waves of the resources.
pub any-waves-fill_buckets :
    (w : ℤ) (rs : List ResourceInfo)
    → any (λ v. v == w) (waves (fill_buckets [] rs)) ≡ any (in_wave w) rs
unfolding lookup
any-waves-fill_buckets w rs = any-waves w (fill_buckets [] rs) ∙ has-fill_buckets w rs []

abbrev pub Distinct : ℤ → ℤ → Type 0
Distinct v w = (v == w) ≡ false

pub Distinct-sym : (v w : ℤ) → Distinct v w → Distinct w v
Distinct-sym v w h = ground (arith, int_eq_iff v w, int_eq_iff w v)

Distinct-waves : (v : ℤ) (m : List (ℤ × WaveBucket)) → has v m ≡ false → All (Distinct v) (waves m)
unfolding lookup
Distinct-waves v [] h = tt
Distinct-waves v ((w, b) ∷ m) h = elim (Bool-cases (w == v)) [
  | inl same ↦ let there : true ≡ false = rw (same, lookup) at h in cc
  | inr other ↦ (Distinct-sym w v other, Distinct-waves v m (rw (other, lookup) at h))
]

pub Pairwise-waves : (m : List (ℤ × WaveBucket)) → IsMap m → Pairwise Distinct (waves m)
Pairwise-waves [] h = tt
Pairwise-waves ((w, b) ∷ m) h = (Distinct-waves w m h.0, Pairwise-waves m h.1)

-- Boolean laws of the two loops over a wave, where one test decides another.
made_before :
    (c s a b : Bool) → (b ≡ true → s ≡ true) → (c || (a && not s)) ≡ (c || ((b || a) && not s))
made_before c s a true h = rw (h refl) (ground arith)
made_before c s a false h = refl

made_now :
    (c s a b : Bool)
    → (b ≡ true → s ≡ false)
    → ((c || (b || false)) || (a && not (s || (b || false)))) ≡ (c || ((b || a) && not s))
made_now c s a true h = rw (h refl) (ground arith)
made_now c s a false h = ground arith

gone_now :
    (d s a b : Bool)
    → (b ≡ true → s ≡ true)
    → ((d || (b || false)) || ((s && not b) && a)) ≡ (d || (s && (b || a)))
gone_now d s a true h = rw (h refl) (ground arith)
gone_now d s a false h = ground arith

never_there : (d s a b : Bool) → (b ≡ true → s ≡ false) → (d || (s && a)) ≡ (d || (s && (b || a)))
never_there d s a true h = rw (h refl) refl
never_there d s a false h = refl

-- The delta lists as created what was not in the state before.
pub created-create_all :
    (k : ResourceKey) (rs : List ResourceInfo) (created state : List ResourceKey)
    → in_state k (create_all created state rs).0
      ≡ (in_state k created || (any (λ r. key_of r == k) rs && not (in_state k state)))
unfolding create_all
created-create_all k [] created state = ground arith
created-create_all k (r ∷ rs) created state =
    created-create_all k rs _ _ ∙ elim (Bool-cases (in_state (key_of r) state)) [
      | inl seen ↦ rw seen (
          made_before (in_state k created) (in_state k state) (any (λ s. key_of s == k) rs)
            (key_of r == k)
            (λ same. subst (λ j. in_state j state ≡ true) (eq_of_beq (key_of r) k same) seen))
      | inr new ↦
          rw
            (
              new,
              any-append (λ j. j == k) state (key_of r ∷ []),
              any-append (λ j. j == k) created (key_of r ∷ []),
            )
            (made_now (in_state k created) (in_state k state) (any (λ s. key_of s == k) rs)
              (key_of r == k)
              (λ same. subst (λ j. in_state j state ≡ false) (eq_of_beq (key_of r) k same) new))
    ]

-- It lists as deleted what was.
pub deleted-delete_all :
    (k : ResourceKey) (rs : List ResourceInfo) (deleted state : List ResourceKey)
    → in_state k (delete_all deleted state rs).0
      ≡ (in_state k deleted || (in_state k state && any (λ r. key_of r == k) rs))
unfolding delete_all
deleted-delete_all k [] deleted state = ground arith
deleted-delete_all k (r ∷ rs) deleted state =
    deleted-delete_all k rs _ _ ∙ elim (Bool-cases (in_state (key_of r) state)) [
      | inl seen ↦
          rw
            (
              seen,
              in_state-select k (key_of r) state,
              any-append (λ j. j == k) deleted (key_of r ∷ []),
            )
            (gone_now (in_state k deleted) (in_state k state) (any (λ s. key_of s == k) rs)
              (key_of r == k)
              (λ same. subst (λ j. in_state j state ≡ true) (eq_of_beq (key_of r) k same) seen))
      | inr new ↦ rw new (
          never_there (in_state k deleted) (in_state k state) (any (λ s. key_of s == k) rs)
            (key_of r == k)
            (λ same. subst (λ j. in_state j state ≡ false) (eq_of_beq (key_of r) k same) new))
    ]
