-- ===== src/Router/Server.antt =====
-- The server's commands: the switch of `sr_read_from_server_expect` of lab1/router/sr_vns_comm.c,
-- and the loop of `main` of sr_main.c over them.
pub mod Socket
pub mod Framing
pub mod Loop
use mini_internet_computer_n.Base.{
  ℕ, ◌≡◌, Bool, not, ◌&&◌, inl, inr, Bool-cases, Option-cases, Option, none, some, List, [], ◌∷◌,
  ◌==◌, arith, if◌then◌else◌,
}
use mini_internet_computer_n.Router.Headers.{Bytes, IpHdr}
use mini_internet_computer_n.Router.State.{Name, SrIf, SrPacket, Sr}
use mini_internet_computer_n.Router.Interfaces.{HwEntry, sr_handle_hwinfo, sr_destroy_interface}
use mini_internet_computer_n.Router.Table.{sr_destory_rt, sr_verify_routing_table}
use mini_internet_computer_n.Router.Table.Verify.{RoutesOk, verify-RoutesOk}
use mini_internet_computer_n.Router.System.{deliver}

-- `cmd_other` is a number that the switch does not know.
pub data Command : Type 0 where
  cmd_packet : Name → Bytes → Command
  cmd_close : Command
  cmd_banner : Command
  cmd_hwinfo : List HwEntry → Command
  cmd_rtable : Command
  cmd_auth_request : Command
  cmd_auth_status : Command
  cmd_other : ℕ → Command

unfoldable pub command_number : Command → ℕ
command_number (cmd_packet interface packet) = 4
command_number cmd_close = 2
command_number cmd_banner = 8
command_number (cmd_hwinfo es) = 16
command_number cmd_rtable = 32
command_number cmd_auth_request = 128
command_number cmd_auth_status = 512
command_number (cmd_other n) = n

-- The return values 1, 0 and -1.
pub data Ret : Type 0 where
  goes_on : Ret
  closed : Ret
  failed : Ret

unfoldable pub sr_init_instance : Sr → Sr
sr_init_instance sr = record sr { if_list = []; routing_table = [] }

unfoldable pub sr_destroy_instance : Sr → Sr
sr_destroy_instance sr = sr_destory_rt (sr_destroy_interface sr)

-- `raw` is what `malloc` returns for an interface; `handled` is whether `sr_handle_rtable`,
-- `sr_handle_auth_request` or `sr_handle_auth_status` succeeds, which leave the state alone.
module _ (raw : SrIf) (handled : Command → Bool) where
  unfoldable pub outcome : Command → Ret
  outcome c = if handled c then goes_on else failed

  unfoldable pub accept_hwinfo : Option Sr → Option (Sr × Ret)
  accept_hwinfo none = none
  accept_hwinfo (some sr) = some (sr, if sr_verify_routing_table sr == 0 then goes_on else failed)

  unfoldable pub going_on : Option Sr → Option (Sr × Ret)
  going_on none = none
  going_on (some sr) = some (sr, goes_on)

  -- The switch.
  unfoldable pub obey : ℕ → Sr → Command → Option (Sr × Ret)
  obey now sr (cmd_packet interface packet) = going_on (deliver now sr packet interface)
  obey now sr cmd_close = some (sr, closed)
  obey now sr cmd_banner = some (sr, goes_on)
  obey now sr (cmd_hwinfo es) = accept_hwinfo (sr_handle_hwinfo raw sr es)
  obey now sr cmd_rtable = some (sr, outcome cmd_rtable)
  obey now sr cmd_auth_request = some (sr, outcome cmd_auth_request)
  obey now sr cmd_auth_status = some (sr, outcome cmd_auth_status)
  obey now sr (cmd_other n) = some (sr, goes_on)

  -- `expected_cmd` is 0 where any command will do; a close is always accepted.
  unfoldable pub sr_read_from_server_expect : ℕ → ℕ → Sr → Command → Option (Sr × Ret)
  sr_read_from_server_expect expected_cmd now sr c =
      if not (expected_cmd == 0)
        && (not (command_number c == expected_cmd) && not (command_number c == 2))
      then some (sr, failed)
      else obey now sr c

  -- The loop `while( sr_read_from_server(&sr) == 1)` of `main` and what follows it, over the
  -- commands that the socket gives, each with its time.
  unfoldable pub serve : Sr → List (ℕ × Command) → Option Sr
  serve sr [] = some sr
  serve sr ((now, c) ∷ cs) = elim (sr_read_from_server_expect 0 now sr c) [
    | none ↦ none
    | some (sr', r) ↦ elim r [
      | goes_on ↦ serve sr' cs
      | closed ↦ some (sr_destroy_instance sr')
      | failed ↦ some (sr_destroy_instance sr')
    ]
  ]

  -- After a description of the interfaces that is accepted, every route leaves by one of them.
  hwinfo-RoutesOk :
      (now : ℕ) (sr sr' : Sr) (es : List HwEntry)
      → sr_read_from_server_expect 0 now sr (cmd_hwinfo es) ≡ some (sr', goes_on)
      → RoutesOk sr'.if_list sr'.routing_table
  unfolding sr_read_from_server_expect obey accept_hwinfo
  hwinfo-RoutesOk now sr sr' es h = elim (Option-cases (sr_handle_hwinfo raw sr es)) [
    | inl n ↦ absurd (let bad : none ≡ some (sr', goes_on) = rw (n, accept_hwinfo) at h in cc)
    | inr r ↦ elim (Bool-cases (sr_verify_routing_table r.0 == 0)) [
      | inl ok ↦
          let same : some (r.0, goes_on) ≡ some (sr', goes_on) = rw (r.1, ok) at h in
          let e : r.0 ≡ sr' = cc in rw (← e) (verify-RoutesOk r.0 (ground arith))
      | inr bad ↦
          let no : some (r.0, failed) ≡ some (sr', goes_on) = rw (r.1, bad) at h in absurd cc
    ]
  ]
