-- ===== src/Ctcp/SendTests.antt =====
-- A corrupted segment, and input, on concrete values.
use mini_internet_computer_n.Base.{◌≡◌, refl, true, false, [], ◌∷◌, arith}
use mini_internet_computer_n.Ctcp.Segment.{data_segment}
use mini_internet_computer_n.Ctcp.State.{ok}
use mini_internet_computer_n.Ctcp.Samples.{client, start}
use mini_internet_computer_n.Ctcp.Unreliable.{flipbit, get_ctcp, flipped_bytes, rand_bit}
use mini_internet_computer_n.Ctcp.Unreliable.Detection.{corruption_shed}
use mini_internet_computer_n.Ctcp.Receive.{ctcp_receive}
use mini_internet_computer_n.Ctcp.Input.{Source, bytes, would_block, no_input, input, conn_input}
use mini_internet_computer_n.Ctcp.Input.Lines.{conn_input_lost}

-- The bytes 104 and 105 in a segment of which one bit is flipped on its way.
corruption_shed_example :
    ctcp_receive client 8192 start
      (flipbit (data_segment 9 3 1440 (104 ∷ 105 ∷ [])) (rand_bit 22 12345))
      22
      (0 ∷ [])
    ≡ ok start
unfolding flipbit get_ctcp flipped_bytes data_segment rand_bit
corruption_shed_example =
    corruption_shed client 8192 start 9 3 1440 (104 ∷ 105 ∷ []) [] 12345 22 (omega arith)
      (omega arith) (omega arith, (omega arith, tt)) (omega arith)
      ((λ e. absurd (omega arith)), ((λ e. absurd (omega arith)), tt))

abbrev from_web : Source
from_web = record { run_program = false; unix_socket = false; marks_end = false }

conn_input_lost_example :
    (conn_input from_web false 11520 (bytes (104 ∷ 105 ∷ 106 ∷ [])) would_block
      ≡ record { ret = input (104 ∷ 105 ∷ []); read_eof = false; overrun = false })
    × (conn_input from_web false 11520 (bytes (106 ∷ [])) would_block
        ≡ record { ret = no_input; read_eof = true; overrun = false })
conn_input_lost_example =
    conn_input_lost from_web refl refl refl (105 ∷ []) 11520 106 104 (λ e. absurd (omega arith))
