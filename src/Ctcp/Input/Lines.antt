-- ===== src/Ctcp/Input/Lines.antt =====
-- Input for the web, which ends its lines as the network does.
use mini_internet_computer_n.Base.{
  ℕ, ◌+◌, ◌-◌, ◌≡◌, ◌≢◌, refl, ap, ◌∙◌, true, false, List, [], ◌∷◌, ◌++◌, arith, leb, ◌==◌, take,
  get_or, length, length-append,
}
use mini_internet_computer_n.Ctcp.Receive.Cksum.{take-length_append}
use mini_internet_computer_n.Ctcp.Input.{
  Read, bytes, would_block, Source, ends_line, with_line_ending, with_more, web_input, no_input,
  input, after_read, filled_by, conn_input, newline,
}

-- The last byte, and those before it.
module _ (d : List ℕ) (c : ℕ) where
  length-last : length (d ++ (c ∷ [])) - 1 ≡ length d
  length-last = omega (arith, length-append d (c ∷ []))

  before_last : take (length (d ++ (c ∷ [])) - 1) (d ++ (c ∷ [])) ≡ d
  before_last = ap (λ (n : ℕ). take n (d ++ (c ∷ []))) length-last ∙ take-length_append d (c ∷ [])

get_or-last : (d : List ℕ) (c : ℕ) → get_or (d ++ (c ∷ [])) (length d) 0 ≡ c
get_or-last [] c = refl
get_or-last (b ∷ d) c = get_or-last d c

ends_line-last : (d : List ℕ) (c : ℕ) → ends_line (d ++ (c ∷ [])) ≡ (c == newline)
unfolding ends_line
ends_line-last d c =
    ap (λ (n : ℕ). get_or (d ++ (c ∷ [])) n 0 == newline) (length-last d c)
    ∙ ap (λ (b : ℕ). b == newline) (get_or-last d c)

line_end : (d : List ℕ) (c : ℕ) → with_line_ending (d ++ (c ∷ [])) ≡ d ++ (13 ∷ newline ∷ [])
unfolding with_line_ending
line_end d c = ap (λ l. l ++ (13 ∷ newline ∷ [])) (before_last d c)

web_line :
    (d : List ℕ) (len : ℕ) (more : Read)
    → web_input len (bytes (d ++ (newline ∷ []))) more
      ≡ record { result = bytes (d ++ (13 ∷ newline ∷ [])); overrun = leb len (length d + 2) }
unfolding web_input ends_line with_line_ending
web_line [] len more = refl
web_line (b ∷ d) len more = rw (ends_line-last (b ∷ d) newline) (λ i. record {
  result = bytes (line_end (b ∷ d) newline i);
  overrun = leb len (
      (let n : length (b ∷ d ++ (newline ∷ [])) + 1 ≡ length (b ∷ d) + 2 =
            omega (arith, length-append d (newline ∷ [])) in
          n)
        i);
})

web_lost :
    (d : List ℕ) (c len : ℕ)
    → c ≢ newline
    → web_input len (bytes (d ++ (c ∷ []))) would_block
      ≡ record { result = bytes d; overrun = false }
unfolding web_input with_more
web_lost [] c len other =
    let ends : ends_line (c ∷ []) ≡ false = ends_line-last [] c ∙ ground arith in rw ends
web_lost (b ∷ d) c len other =
    let ends : ends_line (b ∷ d ++ (c ∷ [])) ≡ false = ends_line-last (b ∷ d) c ∙ ground arith in
    rw ends (ap (λ l. record { result = bytes l; overrun = false }) (before_last (b ∷ d) c))

after_line :
    (d : List ℕ) (b : ℕ) (r : List ℕ)
    → after_read false (bytes (d ++ (b ∷ r))) ≡ (input (d ++ (b ∷ r)), false)
unfolding after_read
after_line [] b r = refl
after_line (x ∷ d) b r = refl

module _ (src : Source) (web : src.run_program ≡ false) (web' : src.unix_socket ≡ false)
    (plain : src.marks_end ≡ false) (d : List ℕ) (len : ℕ) where
  from_web : (first more : Read) → filled_by src len first more ≡ web_input len first more
  unfolding filled_by
  from_web first more = rw (web, web')

  -- A line gets its ending; where it fills the space that `read` was given, a byte is written behind
  -- the buffer.
  conn_input_line :
      (more : Read)
      → conn_input src false len (bytes (d ++ (newline ∷ []))) more ≡ record {
        ret = input (d ++ (13 ∷ newline ∷ []));
        read_eof = false;
        overrun = leb len (length d + 2);
      }
  unfolding conn_input
  conn_input_line more = rw (from_web, web_line, plain, after_line)

  -- With input for the web, where no byte follows at once on some that do not end a line, the last of
  -- them is lost; where there is only one, its loss counts as the end of the input.
  pub conn_input_lost :
      (c b : ℕ)
      → c ≢ newline
      → (conn_input src false len (bytes (b ∷ d ++ (c ∷ []))) would_block
          ≡ record { ret = input (b ∷ d); read_eof = false; overrun = false })
        × (conn_input src false len (bytes (c ∷ [])) would_block
            ≡ record { ret = no_input; read_eof = true; overrun = false })
  unfolding conn_input after_read
  conn_input_lost c b other = (
    rw (from_web, web_lost (b ∷ d) c len other, plain) refl,
    rw (from_web, web_lost [] c len other) refl,
  )
