-- ===== src/Router/Server/Framing.antt =====
-- Commands come out of the socket as the server puts them in, however they are cut up.
use mathlib.Core.List.{append_assoc, append-nil}
use mini_internet_computer_n.Base.{
  ℕ, zero, suc, ◌+◌, ◌-◌, ◌/◌, ◌%◌, ◌^◌, ◌<◌, ◌≤◌, ◌≡◌, ap, ◌∙◌, true, false, List, [], ◌∷◌, ◌++◌,
  ltb, arith, length, length-append, replicate, if◌then◌else◌, if_split,
}
use mini_internet_computer_n.Router.Headers.{Bytes}
use mini_internet_computer_n.Router.Server.Socket.{
  Recv, got, interrupted, recv_error, blocked, filled, read_bytes, word_at, awaited, refused,
  overrun, message, whole, after_size, read_command,
}

-- The bytes that calls give, and that the calls end with some and meet no error.
abbrev gathered : List Recv → Bytes
gathered [] = []
gathered (got d ∷ rs) = d ++ gathered rs
gathered (interrupted ∷ rs) = gathered rs
gathered (recv_error ∷ rs) = gathered rs

abbrev EndsWithBytes : List Recv → Type 0
EndsWithBytes [] = ⊥
EndsWithBytes (got d ∷ []) = 0 < length d
EndsWithBytes (got d ∷ r ∷ rs) = EndsWithBytes (r ∷ rs)
EndsWithBytes (interrupted ∷ rs) = EndsWithBytes rs
EndsWithBytes (recv_error ∷ rs) = ⊥

gathered_some : (rs : List Recv) → EndsWithBytes rs → 0 < length (gathered rs)
gathered_some [] e = absurd e
gathered_some (got d ∷ []) e = omega (arith, length-append d [])
gathered_some (got d ∷ r ∷ rs) e =
    omega (arith, length-append d (gathered (r ∷ rs)), gathered_some (r ∷ rs) e)
gathered_some (interrupted ∷ rs) e = gathered_some rs e
gathered_some (recv_error ∷ rs) e = absurd e

read_full :
    (want : ℕ) (buf : Bytes) (rs : List Recv)
    → want ≤ length buf
    → read_bytes want buf rs ≡ filled buf rs
unfolding read_bytes
read_full want buf [] h =
    let full : ltb (length buf) want ≡ false = ground arith in rw (full, read_bytes)
read_full want buf (r ∷ rs) h =
    let full : ltb (length buf) want ≡ false = ground arith in rw (full, read_bytes)

-- The loop gives the bytes of the calls that it makes, and leaves the rest.
read_gathered :
    (want : ℕ) (buf : Bytes) (rs later : List Recv)
    → EndsWithBytes rs
    → length buf + length (gathered rs) ≡ want
    → read_bytes want buf (rs ++ later) ≡ filled (buf ++ gathered rs) later
unfolding read_bytes
read_gathered want buf [] later e n = absurd e
read_gathered want buf (got d ∷ []) later e n =
    let more : ltb (length buf) want ≡ true = ground (arith, length-append d []) in
    rw (more, read_bytes, append-nil)
      (read_full want (buf ++ d) later (omega (arith, length-append buf d, length-append d [])))
read_gathered want buf (got d ∷ r ∷ rs) later e n =
    let some_left = gathered_some (r ∷ rs) e in
    let more : ltb (length buf) want ≡ true = ground (arith, length-append d (gathered (r ∷ rs))) in
    rw (more, read_bytes)
      (read_gathered want (buf ++ d) (r ∷ rs) later e
          (omega (arith, length-append buf d, length-append d (gathered (r ∷ rs))))
        ∙ ap (λ p. filled p later) (append_assoc buf d (gathered (r ∷ rs))))
read_gathered want buf (interrupted ∷ rs) later e n =
    let some_left = gathered_some rs e in
    let more : ltb (length buf) want ≡ true = ground arith in
    rw (more, read_bytes) (read_gathered want buf rs later e n)
read_gathered want buf (recv_error ∷ rs) later e n = absurd e

-- `htonl(v)`, followed by `r`.
abbrev pub big32 : ℕ → Bytes → Bytes
big32 v r = (v / 16777216 % 256) ∷ (v / 65536 % 256) ∷ (v / 256 % 256) ∷ (v % 256) ∷ r

-- The size of a command comes first, in calls of its own.
module _ (len : ℕ) (fits : len < 2 ^ 32) (head later : List Recv) (ends : EndsWithBytes head)
    (size : gathered head ≡ big32 len []) where
  size_read : read_bytes 4 [] (head ++ later) ≡ filled (big32 len []) later
  size_read =
      read_gathered 4 [] head later ends (omega (arith, ap length size))
      ∙ ap (λ p. filled p later) size

  size_again : word_at (big32 len []) 0 ≡ len
  size_again = omega arith

  read_command-too_long : 10000 < len → read_command (head ++ later) ≡ refused
  unfolding read_command after_size
  read_command-too_long long =
      let over : ltb 10000 (word_at (big32 len []) 0) ≡ true = ground (arith, size_again) in
      rw (size_read, over)

  read_command-too_short : len < 8 → read_command (head ++ later) ≡ overrun
  unfolding read_command after_size
  read_command-too_short short =
      let over : ltb 10000 (word_at (big32 len []) 0) ≡ false = ground (arith, size_again) in
      let under : ltb (word_at (big32 len []) 0) 8 ≡ true = ground (arith, size_again) in
      rw (size_read, over, under)

  read_command-enough :
      8 ≤ len → len ≤ 10000 → read_command (head ++ later) ≡ whole (read_bytes (len - 4) [] later)
  unfolding read_command after_size
  read_command-enough enough short =
      let over : ltb 10000 (word_at (big32 len []) 0) ≡ false = ground (arith, size_again) in
      let under : ltb (word_at (big32 len []) 0) 8 ≡ false = ground (arith, size_again) in
      rw (size_read, over, under) (ap (λ (n : ℕ). whole (read_bytes (n - 4) [] later)) size_again)

-- The bytes of a command come in two series of calls, for its size and for the rest.
pub record Framed (number : ℕ) (body : Bytes) (head tail : List Recv) : Type 0 where
  pub head_ends : EndsWithBytes head
  pub size : gathered head ≡ big32 (8 + length body) []
  pub tail_ends : EndsWithBytes tail
  pub content : gathered tail ≡ big32 number body
  pub number_fits : number < 2 ^ 32
  pub short : 8 + length body ≤ 10000

pub read_command-Framed :
    (number : ℕ) (body : Bytes) (head tail later : List Recv)
    → Framed number body head tail
    → read_command (head ++ (tail ++ later)) ≡ message number body later
unfolding whole
read_command-Framed number body head tail later framed =
    let fits = framed.number_fits in
    let short = framed.short in
    let n : length (gathered tail) ≡ 4 + length body = ap length framed.content ∙ omega arith in
    let again : word_at (big32 number body) 0 ≡ number = omega arith in
    read_command-enough (8 + length body) (omega arith) head (tail ++ later) framed.head_ends
      framed.size (omega arith) short
    ∙ ap whole (read_gathered (8 + length body - 4) [] tail later framed.tail_ends (omega arith))
    ∙ ap (λ p. whole (filled p later)) framed.content
    ∙ ap (λ (n : ℕ). message n body later) again

read_nothing :
    (want : ℕ) (buf : Bytes) (k : ℕ)
    → length buf < want
    → read_bytes want buf (replicate k (got [])) ≡ blocked
unfolding read_bytes
read_nothing want buf zero h =
    let more : ltb (length buf) want ≡ true = ground arith in rw (more, read_bytes)
read_nothing want buf (suc k) h =
    let more : ltb (length buf) want ≡ true = ground arith in
    rw (more, read_bytes, append-nil) (read_nothing want buf k h)

-- The size decides: above 10000 the command is refused, below 8 the code reads behind its buffer, and
-- otherwise the rest of the command is read.
read_command-size :
    (len : ℕ) (head later : List Recv)
    → len < 2 ^ 32
    → EndsWithBytes head
    → gathered head ≡ big32 len []
    → read_command (head ++ later) ≡ (
        if ltb 10000 len
        then refused
        else if ltb len 8
        then overrun
        else whole (read_bytes (len - 4) [] later))
read_command-size len head later fits ends size =
    if_split (λ i. read_command (head ++ later) ≡ i) (ltb 10000 len) _ _
      (λ e. read_command-too_long len fits head later ends size (ground arith))
      (λ e.
        if_split (λ i. read_command (head ++ later) ≡ i) (ltb len 8) _ _
          (λ s. read_command-too_short len fits head later ends size (ground arith))
          (λ s. read_command-enough len fits head later ends size (ground arith) (ground arith)))

pub read_command-closed : (k : ℕ) → read_command (replicate k (got [])) ≡ awaited
unfolding read_command after_size
read_command-closed k = rw (read_nothing 4 [] k (omega arith))
