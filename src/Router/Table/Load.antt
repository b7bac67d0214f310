-- ===== src/Router/Table/Load.antt =====
-- `sr_load_rt` of lab1/router/sr_rt.c. The lines of the file, `sscanf` and `inet_aton` belong to
-- the C library and are parameters.
use mathlib.Core.List.{append-nil, append_assoc}
use mini_internet_computer_n.Base.{
  ℕ, ◌≡◌, refl, ◌∙◌, Bool, true, false, Option, none, some, List, [], ◌∷◌, ◌++◌, if◌then◌else◌, inl,
  inr, Option-cases,
}
use mini_internet_computer_n.Router.State.{Name, copy_name, SrRt, Sr}
use mini_internet_computer_n.Router.Table.{sr_destory_rt, sr_add_rt_entry}

-- The four words of a line: the local arrays `dest`, `gw`, `mask` and `iface`.
pub record Words : Type 0 where
  pub dest : Name
  pub gw : Name
  pub mask : Name
  pub iface : Name

abbrev replaced : List SrRt → List SrRt → List SrRt
replaced old [] = old
replaced old (e ∷ es) = e ∷ es

-- `scan` is `sscanf(line, "%s %s %s %s", ...)`, which leaves a word that it does not read as it
-- was; `aton` is `inet_aton`, `none` for its 0.
module _ (scan : Name → Words → Words) (aton : Name → Option ℕ) where
  -- The addresses of a line, in the order in which they are converted.
  unfoldable pub convert : Words → Option (ℕ × ℕ × ℕ)
  convert w = elim (aton w.dest) [
    | none ↦ none
    | some dest ↦ elim (aton w.gw) [
      | none ↦ none
      | some gw ↦ elim (aton w.mask) [ none ↦ none | some mask ↦ some (dest, gw, mask) ]
    ]
  ]

  -- `if (clear_routing_table == 0) sr_destory_rt(sr)`.
  cleared : Bool → Sr → Sr
  unfolding sr_destory_rt
  cleared done sr = if done then sr else sr_destory_rt sr

  -- The state, and whether the return value is 0 (it is -1 otherwise). `done` is
  -- `clear_routing_table`, `w` the local arrays.
  load_lines : Bool → Words → Sr → List Name → Sr × Bool
  load_lines done w sr [] = (sr, true)
  load_lines done w sr (line ∷ lines) = elim (convert (scan line w)) [
    | none ↦ (sr, false)
    | some (dest, gw, mask) ↦
        load_lines true (scan line w)
          (sr_add_rt_entry (cleared done sr) dest gw mask (scan line w).iface) lines
  ]

  -- `opened` is the file's lines, `none` where `access` fails.
  sr_load_rt : Words → Sr → Option (List Name) → Sr × Bool
  unfolding load_lines
  sr_load_rt w sr none = (sr, false)
  sr_load_rt w sr (some lines) = load_lines false w sr lines

  -- What the lines say before the first that does not convert.
  entries_of : Words → List Name → List SrRt
  entries_of w [] = []
  entries_of w (line ∷ lines) = elim (convert (scan line w)) [
    | none ↦ []
    | some (dest, gw, mask) ↦
        record { dest = dest; gw = gw; mask = mask; interface = copy_name (scan line w).iface }
        ∷ entries_of (scan line w) lines
  ]

  -- Once the old table is cleared, the lines append their entries.
  load_lines-append :
      (w : Words) (sr : Sr) (lines : List Name)
      → (load_lines true w sr lines).0
        ≡ record sr { routing_table = sr.routing_table ++ entries_of w lines }
  unfolding load_lines entries_of cleared sr_add_rt_entry
  load_lines-append w sr [] = rw append-nil
  load_lines-append w sr (line ∷ lines) = elim (Option-cases (convert (scan line w))) [
    | inl p ↦ rw (p, load_lines, entries_of) (rw append-nil)
    | inr a ↦
        rw (a.1, load_lines, entries_of)
          (load_lines-append (scan line w)
              (sr_add_rt_entry sr a.0.0 a.0.1 a.0.2 (scan line w).iface) lines
            ∙ rw append_assoc)
  ]

  -- Loading a file replaces the routing table by the entries of its lines up to the first that does
  -- not convert. If there is none the old table stays, and nothing else of the router changes.
  sr_load_rt_replaces :
      (w : Words) (sr : Sr) (lines : List Name)
      → (sr_load_rt w sr (some lines)).0
        ≡ record sr { routing_table = replaced sr.routing_table (entries_of w lines) }
  unfolding sr_load_rt load_lines entries_of cleared sr_add_rt_entry sr_destory_rt
  sr_load_rt_replaces w sr [] = refl
  sr_load_rt_replaces w sr (line ∷ lines) = elim (Option-cases (convert (scan line w))) [
    | inl p ↦ rw (p, load_lines, entries_of)
    | inr a ↦
        rw (a.1, load_lines, entries_of)
          (load_lines-append (scan line w)
            (sr_add_rt_entry (sr_destory_rt sr) a.0.0 a.0.1 a.0.2 (scan line w).iface) lines)
  ]
