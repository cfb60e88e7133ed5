-- ===== src/Gates/Snapshots.antt =====
-- What applying snapshots keeps, for each origin.
use snow_cli.Base.{
  sym, ap, Bool, ◌∙◌, false, ◌≤◌, refl, ◌≢◌, text_eq_iff, ltb, arith, Option, [], if◌then◌else◌,
  ◌∷◌, ◌↔◌, true, none, some, ◌≡◌,
}
use snow_cli.Gates.{
  HelperStatus, OriginKey, GateSnapshot, Snapshots, get_snapshot, insert_snapshot, apply_snapshot,
  should_replace, same_key, apply_all, apply_gate_snapshot,
}

same_key_iff : (left right : OriginKey) → (same_key left right ≡ true) ↔ (left ≡ right)
unfolding same_key
same_key_iff left right =
    ground (
      arith,
      text_eq_iff left.key_scheme right.key_scheme,
      text_eq_iff left.key_host right.key_host,
    )

get_snapshot-insert_snapshot :
    (origin other : OriginKey) (snapshot : GateSnapshot) (entries : Snapshots)
    → get_snapshot other (insert_snapshot origin snapshot entries)
      ≡ (if same_key origin other then some snapshot else get_snapshot other entries)
unfolding get_snapshot insert_snapshot
get_snapshot-insert_snapshot origin other snapshot [] = ground arith
get_snapshot-insert_snapshot origin other snapshot (entry ∷ entries) = ground (
  arith,
  get_snapshot-insert_snapshot origin other snapshot entries,
  same_key_iff entry.0 origin,
  same_key_iff origin other,
  same_key_iff entry.0 other,
)

-- The newer of what is there and a snapshot; of two of one revision, what is there.
abbrev pub newer : Option GateSnapshot → GateSnapshot → GateSnapshot
newer none snapshot = snapshot
newer (some current) snapshot = if ltb current.revision snapshot.revision then snapshot else current

get_snapshot-apply_snapshot :
    (origin other : OriginKey) (snapshot : GateSnapshot) (entries : Snapshots)
    → get_snapshot other (apply_snapshot origin snapshot entries) ≡ (
        if same_key origin other
        then some (newer (get_snapshot other entries) snapshot)
        else get_snapshot other entries)
unfolding apply_snapshot should_replace
get_snapshot-apply_snapshot origin other snapshot entries =
    by_current (get_snapshot origin entries) refl
  where
    by_current :
        (o : Option GateSnapshot)
        → get_snapshot origin entries ≡ o
        → get_snapshot other (apply_snapshot origin snapshot entries) ≡ (
            if same_key origin other
            then some (newer (get_snapshot other entries) snapshot)
            else get_snapshot other entries)
    by_current none found = ground (
      arith,
      get_snapshot-insert_snapshot origin other snapshot entries,
      same_key_iff origin other,
    )
    by_current (some current) found = ground (
      arith,
      get_snapshot-insert_snapshot origin other snapshot entries,
      same_key_iff origin other,
    )

newer_comm :
    (o : Option GateSnapshot) (a b : GateSnapshot)
    → a.revision ≢ b.revision
    → newer (some (newer o b)) a ≡ newer (some (newer o a)) b
newer_comm none a b h = ground arith
newer_comm (some current) a b h = ground arith

-- Two snapshots may arrive in either order, unless they are for one origin and have one revision: every
-- origin then has the same snapshot.
pub apply_gate_snapshot_comm :
    (first second : OriginKey × GateSnapshot) (status : HelperStatus) (other : OriginKey)
    → (first.0 ≡ second.0 → first.1.revision ≢ second.1.revision)
    → get_snapshot other
        (apply_gate_snapshot first.0 first.1
          (apply_gate_snapshot second.0 second.1 status)).instance_gates
      ≡ get_snapshot other
          (apply_gate_snapshot second.0 second.1
            (apply_gate_snapshot first.0 first.1 status)).instance_gates
unfolding apply_gate_snapshot
apply_gate_snapshot_comm first second status other distinct =
    by_keys (same_key first.0 other) (same_key second.0 other) refl refl
  where
    entries : Snapshots
    entries = status.instance_gates

    after_first : Snapshots
    after_first = apply_snapshot first.0 first.1 entries

    after_second : Snapshots
    after_second = apply_snapshot second.0 second.1 entries

    by_bools :
        (f s : Bool)
        → same_key first.0 other ≡ f
        → same_key second.0 other ≡ s
        → (if f
            then some (
                newer
                  (if s
                    then some (newer (get_snapshot other entries) second.1)
                    else get_snapshot other entries)
                  first.1)
            else (if s
                then some (newer (get_snapshot other entries) second.1)
                else get_snapshot other entries))
          ≡ (if s
              then some (
                  newer
                    (if f
                      then some (newer (get_snapshot other entries) first.1)
                      else get_snapshot other entries)
                    second.1)
              else (if f
                  then some (newer (get_snapshot other entries) first.1)
                  else get_snapshot other entries))
    by_bools false s hf hs = ground arith
    by_bools true false hf hs = refl
    by_bools true true hf hs =
        let same_first = (same_key_iff first.0 other).0 hf in
        let same_second = (same_key_iff second.0 other).0 hs in
        ap some (
          newer_comm (get_snapshot other entries) first.1 second.1
            (distinct (same_first ∙ sym same_second)))

    by_keys :
        (f s : Bool)
        → same_key first.0 other ≡ f
        → same_key second.0 other ≡ s
        → get_snapshot other (apply_snapshot first.0 first.1 after_second)
          ≡ get_snapshot other (apply_snapshot second.0 second.1 after_first)
    by_keys f s hf hs =
        rw
          (
            get_snapshot-apply_snapshot first.0 other first.1 after_second,
            get_snapshot-apply_snapshot second.0 other second.1 after_first,
            get_snapshot-apply_snapshot second.0 other second.1 entries,
            get_snapshot-apply_snapshot first.0 other first.1 entries,
            hf,
            hs,
          )
          (by_bools f s hf hs)

-- Snapshots that arrive never take an origin back to an earlier revision.
pub apply_all_grows :
    (entries : Snapshots) (status : HelperStatus) (other : OriginKey) (current : GateSnapshot)
    → get_snapshot other status.instance_gates ≡ some current
    → (latest : GateSnapshot) × (get_snapshot other (apply_all entries status).instance_gates
        ≡ some latest)
      × (current.revision ≤ latest.revision)
unfolding apply_gate_snapshot
apply_all_grows [] status other current h = (current, h, omega arith)
apply_all_grows (entry ∷ entries) status other current h =
    let grown = get_snapshot-apply_snapshot entry.0 other entry.1 status.instance_gates in
    let next = if same_key entry.0 other then newer (some current) entry.1 else current in
    let (latest, found, later) =
      apply_all_grows entries (apply_gate_snapshot entry.0 entry.1 status) other next
        (ground arith) in
    (latest, found, ground arith)
