-- ===== src/Ctcp/OutputTests.antt =====
-- The output queue and the linked list of lab3 on concrete values.
use mini_internet_computer_n.Base.{
  ℕ, ◌≡◌, refl, true, false, none, some, List, [], ◌∷◌, ◌++◌, arith,
}
use mini_internet_computer_n.Ctcp.State.{CtcpState, held, ok}
use mini_internet_computer_n.Ctcp.Numbers.{OnOk}
use mini_internet_computer_n.Ctcp.Timer.{ctcp_init}
use mini_internet_computer_n.Ctcp.Samples.{client, start}
use mini_internet_computer_n.Ctcp.Output.{
  Conn, Write, wrote, again, count, queued, conn_output, drain_loop, after_write, output_on,
  conn_drain,
}
use mini_internet_computer_n.Ctcp.Output.Stream.{
  content, Use, output, drain, uses, accepted_in, uses-content,
}
use mini_internet_computer_n.Ctcp.Output.Space.{Fits, output_on-Fits}
use mini_internet_computer_n.Ctcp.Output.Closes.{drain_closes}
use mini_internet_computer_n.Ctcp.LinkedList.{LinkedList, Heap, store, ll_remove}
use mini_internet_computer_n.Ctcp.LinkedList.Refines.{Holds}
use mini_internet_computer_n.Ctcp.LinkedList.Remove.{ll_remove-Holds}

-- Three bytes wait, one of them written.
abbrev behind : Conn
behind = record {
  wrote_eof = false;
  wrote_err = false;
  delete_me = false;
  out_queue = record { used = 1; buf = 104 ∷ 105 ∷ 10 ∷ [] } ∷ [];
  stream = 104 ∷ [];
  polls = true;
}

abbrev two_uses : List Use
two_uses = output (7 ∷ 8 ∷ []) again ∷ drain (wrote 2 ∷ wrote 1 ∷ []) ∷ []

uses-content_example :
    content (uses behind two_uses) ≡ content behind ++ accepted_in behind two_uses
uses-content_example = uses-content behind two_uses

abbrev ready : CtcpState
ready = record start { output_buffer = held (7 ∷ 8 ∷ []); output_len = 2 }

output_on-Fits_example : OnOk (output_on client behind ready again) (λ r. Fits r.0)
unfolding queued
output_on-Fits_example = output_on-Fits client behind ready again (omega arith) (omega arith)

drain_closes_example :
    (conn' : Conn) × (st' : CtcpState) × (conn_drain client behind start (wrote 2 ∷ []) again
      ≡ ok (conn', st'))
    × ((buf : List ℕ) (w' : Write) → conn_output conn' buf w' ≡ (conn', count 0))
unfolding drain_loop after_write ctcp_init
drain_closes_example =
    drain_closes client behind start (wrote 2 ∷ []) again refl refl refl refl refl

-- A list of two nodes, 16 and 32, which hold the objects 7 and 8.
abbrev two_nodes : Heap
two_nodes =
    store (store (λ p. none) 16 (record { next = 32; prev = 0; object = 7 })) 32
      (record { next = 0; prev = 16; object = 8 })

abbrev two_list : LinkedList
two_list = record { head = 16; tail = 32; length = 2 }

two-Holds : Holds two_nodes two_list ((16, 7) ∷ (32, 8) ∷ [])
unfolding store
two-Holds = record {
  front = refl;
  back = refl;
  counted = refl;
  chain = (omega arith, refl, (omega arith, refl, tt));
  distinct = ((omega arith, tt), (tt, tt));
}

ll_remove-Holds_example :
    (h' : Heap) × (list' : LinkedList) × (ll_remove two_nodes two_list 16 ≡ some (h', list', 7))
    × Holds h' list' ((32, 8) ∷ [])
    × (h' 16 ≡ none)
ll_remove-Holds_example =
    ll_remove-Holds two_nodes two_list (16, 7) [] ((32, 8) ∷ []) two-Holds (omega arith)
