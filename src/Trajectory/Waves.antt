-- ===== src/Trajectory/Waves.antt =====
-- What the buckets of the waves hold, and what the two loops of a wave do to the state.
use cross_validate.Base.{
  any-append, Bool, true, false, ◌&&◌, ◌||◌, not, List, [], ◌∷◌, ◌++◌, if◌then◌else◌, ◌==◌, any,
  select, ◌≡◌, refl, sym, subst, ap, ◌∙◌, arith, Bool-cases, inl, inr, eq_of_beq,
}
use mathlib.Core.List.{append_assoc, append-nil}
use cross_validate.Base.Int.{ℤ, integer_eq}
use cross_validate.Base.Maps.{lookup, insert, lookup-insert}
use cross_validate.Types.World.{ResourceInfo}
use cross_validate.Trajectory.{
  ResourceKey, key_instance, key_of, WaveBucket, hook_deletes, or_new, wave_of, add_resource,
  fill_buckets, in_state, create_all, delete_all,
}

abbrev pub in_wave : ℤ → ResourceInfo → Bool
in_wave w r = wave_of r == w

add-creates :
    (r : ResourceInfo) (w : ℤ) (out : List (ℤ × WaveBucket))
    → (or_new (
        lookup w
          (insert (wave_of r) (add_resource r (or_new (lookup (wave_of r) out))) out))).creates
      ≡ (or_new (lookup w out)).creates ++ (if in_wave w r then r ∷ [] else [])
add-creates r w out =
    rw (lookup-insert (wave_of r) w (add_resource r (or_new (lookup (wave_of r) out))) out)
      (elim (Bool-cases (wave_of r == w)) [
        | inl same ↦ rw (same, eq_of_beq (wave_of r) w same) refl
        | inr other ↦ rw other (sym (append-nil _))
      ])

append-if {ℓ} :
    {A : Type ℓ} (xs ys : List A) (x : A) (b : Bool)
    → (xs ++ (if b then x ∷ [] else [])) ++ ys ≡ xs ++ (if b then x ∷ ys else ys)
append-if xs ys x true = append_assoc xs (x ∷ []) ys
append-if xs ys x false = ap (λ zs. zs ++ ys) (append-nil xs)

-- A bucket creates the resources of its wave, in order.
pub creates-fill_buckets :
    (w : ℤ) (rs : List ResourceInfo) (out : List (ℤ × WaveBucket))
    → (or_new (lookup w (fill_buckets out rs))).creates
      ≡ (or_new (lookup w out)).creates ++ select (in_wave w) rs
unfolding fill_buckets
creates-fill_buckets w [] out = sym (append-nil _)
creates-fill_buckets w (r ∷ rs) out =
    creates-fill_buckets w rs _
    ∙ ap (λ xs. xs ++ select (in_wave w) rs) (add-creates r w out)
    ∙ append-if (or_new (lookup w out)).creates (select (in_wave w) rs) r (in_wave w r)

add-deletes :
    (r : ResourceInfo) (w : ℤ) (out : List (ℤ × WaveBucket))
    → (or_new (
        lookup w
          (insert (wave_of r) (add_resource r (or_new (lookup (wave_of r) out))) out))).deletes
      ≡ (or_new (lookup w out)).deletes ++ (if in_wave w r && hook_deletes r then r ∷ [] else [])
add-deletes r w out =
    rw (lookup-insert (wave_of r) w (add_resource r (or_new (lookup (wave_of r) out))) out)
      (elim (Bool-cases (wave_of r == w)) [
        | inl same ↦
            rw (same, eq_of_beq (wave_of r) w same)
              (added (or_new (lookup w out)).deletes (hook_deletes r))
        | inr other ↦ rw other (sym (append-nil _))
      ])
  where
    added :
        (xs : List ResourceInfo) (b : Bool)
        → (if b then xs ++ r ∷ [] else xs) ≡ xs ++ (if b then r ∷ [] else [])
    added xs true = refl
    added xs false = sym (append-nil xs)

-- It deletes those of them with a hook that deletes.
pub deletes-fill_buckets :
    (w : ℤ) (rs : List ResourceInfo) (out : List (ℤ × WaveBucket))
    → (or_new (lookup w (fill_buckets out rs))).deletes
      ≡ (or_new (lookup w out)).deletes ++ select (λ r. in_wave w r && hook_deletes r) rs
unfolding fill_buckets
deletes-fill_buckets w [] out = sym (append-nil _)
deletes-fill_buckets w (r ∷ rs) out =
    deletes-fill_buckets w rs _
    ∙ ap (λ xs. xs ++ select (λ s. in_wave w s && hook_deletes s) rs) (add-deletes r w out)
    ∙ append-if (or_new (lookup w out)).deletes (select (λ s. in_wave w s && hook_deletes s) rs) r
        (in_wave w r && hook_deletes r)

-- Boolean laws of the three loops, where one test decides another.
drop_one : (b i : Bool) → (i && not b) ≡ ((b || i) && not b)
drop_one b i = ground arith

keep_one : (a b i : Bool) → (b ≡ true → a ≡ false) → (a || i && not b) ≡ ((a || i) && not b)
keep_one a true i h = rw (h refl) refl
keep_one true false i h = refl
keep_one false false i h = ground arith

seen_before : (s a b : Bool) → (b ≡ true → s ≡ true) → (s || a) ≡ (s || (b || a))
seen_before s a true h = rw (h refl) refl
seen_before s a false h = refl

never_seen : (s a b : Bool) → (b ≡ true → s ≡ false) → (s && not a) ≡ (s && not (b || a))
never_seen s a true h = rw (h refl) refl
never_seen s a false h = refl

add_one : (s a b : Bool) → ((s || (b || false)) || a) ≡ (s || (b || a))
add_one s a b = ground arith

remove_one : (s a b : Bool) → ((s && not b) && not a) ≡ (s && not (b || a))
remove_one s a b = ground arith

pub in_state-select :
    (k j : ResourceKey) (xs : List ResourceKey)
    → in_state k (select (λ x. not (x == j)) xs) ≡ (in_state k xs && not (j == k))
in_state-select k j [] = refl
in_state-select k j (x ∷ xs) = elim (Bool-cases (x == j)) [
  | inl same ↦
      rw (same, eq_of_beq x j same) (in_state-select k j xs ∙ drop_one (j == k) (in_state k xs))
  | inr other ↦ rw other (
      ap (λ b. x == k || b) (in_state-select k j xs)
      ∙ keep_one (x == k) (j == k) (in_state k xs) (λ same. rw (eq_of_beq j k same) at other))
]

pub in_state-create_all :
    (k : ResourceKey) (rs : List ResourceInfo) (created state : List ResourceKey)
    → in_state k (create_all created state rs).1 ≡ (in_state k state || any (λ r. key_of r == k) rs)
unfolding create_all
in_state-create_all k [] created state = ground arith
in_state-create_all k (r ∷ rs) created state =
    in_state-create_all k rs _ _ ∙ elim (Bool-cases (in_state (key_of r) state)) [
      | inl seen ↦ rw seen (
          seen_before (in_state k state) (any (λ s. key_of s == k) rs) (key_of r == k)
            (λ same. subst (λ j. in_state j state ≡ true) (eq_of_beq (key_of r) k same) seen))
      | inr new ↦
          rw (new, any-append (λ j. j == k) state (key_of r ∷ []))
            (add_one (in_state k state) (any (λ s. key_of s == k) rs) (key_of r == k))
    ]

pub in_state-delete_all :
    (k : ResourceKey) (rs : List ResourceInfo) (deleted state : List ResourceKey)
    → in_state k (delete_all deleted state rs).1
      ≡ (in_state k state && not (any (λ r. key_of r == k) rs))
unfolding delete_all
in_state-delete_all k [] deleted state = ground arith
in_state-delete_all k (r ∷ rs) deleted state =
    in_state-delete_all k rs _ _ ∙ elim (Bool-cases (in_state (key_of r) state)) [
      | inl seen ↦
          rw (seen, in_state-select k (key_of r) state)
            (remove_one (in_state k state) (any (λ s. key_of s == k) rs) (key_of r == k))
      | inr new ↦ rw new (
          never_seen (in_state k state) (any (λ s. key_of s == k) rs) (key_of r == k)
            (λ same. subst (λ j. in_state j state ≡ false) (eq_of_beq (key_of r) k same) new))
    ]
