-- ===== src/Cinder/Durable/Effects.antt =====
-- crates/cinder/src/file_backed.rs: what the records of a log do to one item.
use kaleidoscope.Prelude.{
  ◌≡◌, refl, sym, ap, ◌∙◌, Option, none, some, List, [], ◌∷◌, arith, ◌==◌, if◌then◌else◌, inl, inr,
  pair_key, map, Bool-cases,
}
use kaleidoscope.Prelude.Map.{
  get, insert, get-insert, insert_all, get-insert_all, or_else, IsUnique, insert-IsUnique,
}
use kaleidoscope.Storage.Replayed.{fold}
use kaleidoscope.Cinder.Types.{SystemTime, Tier, ItemKey, TierEntry, Entries}
use kaleidoscope.Cinder.Sweep.{set_tier}
use kaleidoscope.Cinder.Evaluate.{moved_to}
use kaleidoscope.Cinder.Durable.Records.{
  WalRecord, place, migrate, apply_to_entries, to_snapshot_entry, snapshot_of, load_entries,
}

abbrev pub retiered : Tier → SystemTime → Option TierEntry → Option TierEntry
retiered to now none = none
retiered to now (some e) = some (moved_to to now e)

-- One record on the entry of one item.
abbrev pub effect : ItemKey → WalRecord → Option TierEntry → Option TierEntry
effect k (place tenant item tier placed_at) o =
    if (tenant, item) == k
    then some (record { tier = tier; placed_at = placed_at; migrated_at = placed_at })
    else o
effect k (migrate tenant item to_tier migrated_at) o =
    if (tenant, item) == k then retiered to_tier migrated_at o else o

get-set_tier :
    (m : Entries) (key : ItemKey) (to : Tier) (now : SystemTime) (o : Option TierEntry)
    (k : ItemKey)
    → get m key ≡ o
    → get (set_tier m key to now o) k ≡ (if key == k then retiered to now (get m k) else get m k)
unfolding set_tier
get-set_tier m key to now none k h = ground (arith, pair_key.same_iff key k)
get-set_tier m key to now (some e) k h =
    ground (arith, get-insert m key (moved_to to now e) k, pair_key.same_iff key k)

pub get-apply_to_entries :
    (m : Entries) (r : WalRecord) (k : ItemKey)
    → get (apply_to_entries m r) k ≡ effect k r (get m k)
unfolding apply_to_entries
get-apply_to_entries m (place tenant item tier placed_at) k =
    get-insert m (tenant, item)
      (record { tier = tier; placed_at = placed_at; migrated_at = placed_at }) k
get-apply_to_entries m (migrate tenant item to_tier migrated_at) k =
    get-set_tier m (tenant, item) to_tier migrated_at (get m (tenant, item)) k refl

set_tier-IsUnique :
    (m : Entries) (key : ItemKey) (to : Tier) (now : SystemTime) (o : Option TierEntry)
    → IsUnique m
    → IsUnique (set_tier m key to now o)
unfolding set_tier
set_tier-IsUnique m key to now none u = u
set_tier-IsUnique m key to now (some e) u = insert-IsUnique m key (moved_to to now e) u

pub apply_to_entries-IsUnique :
    (m : Entries) (r : WalRecord) → IsUnique m → IsUnique (apply_to_entries m r)
unfolding apply_to_entries
apply_to_entries-IsUnique m (place tenant item tier placed_at) u =
    insert-IsUnique m (tenant, item)
      (record { tier = tier; placed_at = placed_at; migrated_at = placed_at }) u
apply_to_entries-IsUnique m (migrate tenant item to_tier migrated_at) u =
    set_tier-IsUnique m (tenant, item) to_tier migrated_at (get m (tenant, item)) u

-- All records on the entry of one item.
unfoldable pub effects : ItemKey → List WalRecord → Option TierEntry → Option TierEntry
effects k [] o = o
effects k (r ∷ rs) o = effects k rs (effect k r o)

pub get-fold :
    (rs : List WalRecord) (m : Entries) (k : ItemKey)
    → get (fold apply_to_entries m rs) k ≡ effects k rs (get m k)
unfolding fold effects
get-fold [] m k = refl
get-fold (r ∷ rs) m k =
    get-fold rs (apply_to_entries m r) k ∙ ap (effects k rs) (get-apply_to_entries m r k)

-- The records leave an entry as it was, or fix it, or fix its tier and the time.
data Fixes (f : Option TierEntry → Option TierEntry) : Type 0 where
  keeps : ((o : Option TierEntry) → f o ≡ o) → Fixes f
  sets : (e : TierEntry) → ((o : Option TierEntry) → f o ≡ some e) → Fixes f
  retiers :
      (to : Tier) (now : SystemTime) → ((o : Option TierEntry) → f o ≡ retiered to now o) → Fixes f

retiered_twice :
    (to to' : Tier) (now now' : SystemTime) (o : Option TierEntry)
    → retiered to' now' (retiered to now o) ≡ retiered to' now' o
retiered_twice to to' now now' none = refl
retiered_twice to to' now now' (some e) = refl

effect-Fixes : (k : ItemKey) (r : WalRecord) → Fixes (effect k r)
effect-Fixes k (place tenant item tier placed_at) = elim (Bool-cases ((tenant, item) == k)) [
  | inl e ↦
      sets (record { tier = tier; placed_at = placed_at; migrated_at = placed_at }) (λ o. rw e refl)
  | inr e ↦ keeps (λ o. rw e refl)
]
effect-Fixes k (migrate tenant item to_tier migrated_at) = elim (Bool-cases ((tenant, item) == k)) [
  | inl e ↦ retiers to_tier migrated_at (λ o. rw e refl)
  | inr e ↦ keeps (λ o. rw e refl)
]

after-Fixes : (f g : Option TierEntry → Option TierEntry) → Fixes f → Fixes g → Fixes (λ o. g (f o))
after-Fixes f g (keeps kf) (keeps kg) = keeps (λ o. kg (f o) ∙ kf o)
after-Fixes f g (sets e sf) (keeps kg) = sets e (λ o. kg (f o) ∙ sf o)
after-Fixes f g (retiers to now rf) (keeps kg) = retiers to now (λ o. kg (f o) ∙ rf o)
after-Fixes f g ff (sets e sg) = sets e (λ o. sg (f o))
after-Fixes f g (keeps kf) (retiers to now rg) =
    retiers to now (λ o. rg (f o) ∙ ap (retiered to now) (kf o))
after-Fixes f g (sets e sf) (retiers to now rg) =
    sets (moved_to to now e) (λ o. rg (f o) ∙ ap (retiered to now) (sf o))
after-Fixes f g (retiers to now rf) (retiers to' now' rg) =
    retiers to' now'
      (λ o. rg (f o) ∙ ap (retiered to' now') (rf o) ∙ retiered_twice to to' now now' o)

effects-Fixes : (k : ItemKey) (rs : List WalRecord) → Fixes (effects k rs)
unfolding effects
effects-Fixes k [] = keeps (λ o. refl)
effects-Fixes k (r ∷ rs) =
    after-Fixes (effect k r) (effects k rs) (effect-Fixes k r) (effects-Fixes k rs)

-- A log that is replayed on the state that it led to changes nothing.
pub effects_again :
    (k : ItemKey) (rs : List WalRecord) (o : Option TierEntry)
    → effects k rs (effects k rs o) ≡ effects k rs o
effects_again k rs o = again (effects k rs) (effects-Fixes k rs) o
  where
    again :
        (f : Option TierEntry → Option TierEntry) → Fixes f → (o : Option TierEntry) → f (f o) ≡ f o
    again f (keeps h) o = h (f o)
    again f (sets e h) o = h (f o) ∙ sym (h o)
    again f (retiers to now h) o =
        h (f o) ∙ ap (retiered to now) (h o) ∙ retiered_twice to to now now o ∙ sym (h o)

load_entries-insert_all :
    (acc m : Entries) → load_entries acc (map to_snapshot_entry m) ≡ insert_all acc m
unfolding load_entries to_snapshot_entry insert_all
load_entries-insert_all acc [] = refl
load_entries-insert_all acc ((k, e) ∷ m) = load_entries-insert_all (insert acc k e) m

-- The snapshot is read back.
pub get-load_entries :
    (m : Entries) (k : ItemKey)
    → IsUnique m
    → get (load_entries [] (snapshot_of m).entries) k ≡ get m k
unfolding snapshot_of get
get-load_entries m k u =
    ap (λ loaded. get loaded k) (load_entries-insert_all [] m)
    ∙ get-insert_all [] m k u
    ∙ absent (get m k)
  where
    absent : (o : Option TierEntry) → or_else o none ≡ o
    absent none = refl
    absent (some e) = refl
