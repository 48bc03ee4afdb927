-- ===== src/Config/Manager.antt =====
-- config.go: `Manager`, the allowlist in memory. A Go map is an association list, whose order is
-- the order of a range over it; the lock makes each method one step. A subscriber's channel is the
-- list of the changes that it has not received.
pub mod Maps
pub mod Reload
use wa_agent_pipeline.Base.{
  ℕ, Text, Bool, true, false, not, ◌||◌, Option, none, some, List, [], ◌∷◌, ◌++◌, map, Result, ok,
  err, ◌==◌, text_eq, nat_eq, ltb, length, lookup, insert, is_some, if◌then◌else◌,
}
use wa_agent_pipeline.Base.Int.{ℤ, pos, ltb_ℤ}
use wa_agent_pipeline.Config.{Group, LoadError, Disk, load, same_group}

pub record Change : Type 0 where
  pub added : List Group

pub record Manager : Type 0 where
  pub groups : List (Text × Group)
  pub mod_time : ℤ
  pub subs : List (List Change)

abbrev pub empty : Manager
empty = record { groups = []; mod_time = pos 0; subs = [] }

-- `for _, g := range groups { next[g.JID] = g }`
unfoldable pub index_groups : List (Text × Group) → List Group → List (Text × Group)
index_groups next [] = next
index_groups next (g ∷ groups) = index_groups (insert g.jid g next) groups

pub record Diff : Type 0 where
  pub added : List Group
  pub changed : Bool

abbrev compare_entry : Option Group → Group → Diff → Diff
compare_entry none g d = record { added = d.added ++ g ∷ []; changed = true }
compare_entry (some old) g d = if not (same_group old g) then record d { changed = true } else d

-- The loop over `next` in `Reload`.
unfoldable pub compare_maps : List (Text × Group) → Diff → List (Text × Group) → Diff
compare_maps old d [] = d
compare_maps old d ((jid, g) ∷ next) = compare_maps old (compare_entry (lookup jid old) g d) next

abbrev pub channel_size : ℕ
channel_size = 4

-- `select { case sub <- ch: default: }`
unfoldable pub offer : Change → List Change → List Change
offer ch buffer = if ltb (length buffer) channel_size then buffer ++ ch ∷ [] else buffer

-- The part of `Reload` after a successful `Load`.
unfoldable pub replace : List Group → ℤ → Manager → Manager
unfolding index_groups compare_maps offer
replace groups mod_time m =
    let next = index_groups [] groups in
    let resized = not (length next == length m.groups) in
    let d = compare_maps m.groups (record { added = []; changed = resized }) next in
    record {
      groups = next;
      mod_time = mod_time;
      subs = if d.changed then map (offer (record { added = d.added })) m.subs else m.subs;
    }

unfoldable pub reload : Disk → Manager → Result LoadError Unit × Manager
reload disk m = elim (load disk) [
  | err e ↦ (err e, m)
  | ok (groups, mod_time) ↦ (ok tt, replace groups mod_time m)
]

abbrev new_result : Result LoadError Unit × Manager → Result LoadError Manager
new_result (ok _, m) = ok m
new_result (err e, m) = err e

-- `New`
unfoldable pub new : Disk → Result LoadError Manager
unfolding reload
new disk = new_result (reload disk empty)

-- One tick of `Watch`: the time that `os.Stat` reports, or its error, and the file as `Reload`
-- finds it. The second result is the error handed to `onError`.
pub data WatchError : Type 0 where
  stat_failed : Text → WatchError
  reload_failed : LoadError → WatchError

abbrev watch_result : Result LoadError Unit × Manager → Manager × Option WatchError
watch_result (ok _, m) = (m, none)
watch_result (err e, m) = (m, some (reload_failed e))

unfoldable pub watch_tick : Result Text ℤ → Disk → Manager → Manager × Option WatchError
watch_tick (err e) disk m = (m, some (stat_failed e))
watch_tick (ok modified) disk m =
    if ltb_ℤ m.mod_time modified then watch_result (reload disk m) else (m, none)

-- The channel that `Subscribe` makes is the last of `subs`.
unfoldable pub subscribe : Manager → Manager
subscribe m = record m { subs = m.subs ++ [] ∷ [] }

unfoldable pub group : Manager → Text → Option Group
group m jid = lookup jid m.groups

unfoldable pub is_allowed : Manager → Text → Bool
is_allowed m jid = is_some (lookup jid m.groups)

unfoldable pub groups : Manager → List Group
groups m = map (λ kv. kv.1) m.groups

unfoldable pub count : Manager → ℕ
count m = length m.groups
