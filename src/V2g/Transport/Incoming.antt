-- ===== src/V2g/Transport/Incoming.antt =====
-- modules/EvseTestV2G/v2g_server.cpp: `v2g_incoming_v2gtp`, which reads a message of the V2G transport
-- protocol into the buffer of the connection, over any transport that keeps the interface.
-- `V2GTP_ReadHeader` is not under modules/: it is the argument `read_header`, which gives the length of the
-- payload, a uint32_t, or `none` for -1.
use evse_test_system.Base.{
  ℕ, ◌+◌, ◌-◌, ◌≡◌, ◌≤◌, not, Option, none, some, List, ◌++◌, length, take, drop, length-append,
  length-take, length-drop, ltb, leb, ◌==◌, if◌then◌else◌, ◌⊎◌, arith,
}
use evse_test_system.Base.Int.{ℤ, pos, negsuc}
use evse_test_system.V2g.Interface.{Transport}

abbrev pub default_buffer_size : ℕ
default_buffer_size = 8192

abbrev pub v2gtp_header_length : ℕ
v2gtp_header_length = 8

-- The connection's buffer, the length of the payload, and the position and size of the EXI stream.
pub record Conn : Type 0 where
  pub buffer : List ℕ
  pub payload_len : ℕ
  pub byte_pos : ℕ
  pub data_size : ℕ

-- Bytes stored in a buffer from an index on; a store past its end makes the list longer.
unfoldable pub store : List ℕ → ℕ → List ℕ → List ℕ
store memory at bytes = take at memory ++ (bytes ++ drop (at + length bytes) memory)

module _ (t : Transport) where
  -- After the header was read.
  unfoldable pub read_payload : Conn → t.Link → ℕ → ℤ × Conn × t.Link
  unfolding store
  read_payload c l len =
      let r = t.read l len in
      let conn = record c {
        payload_len = len;
        buffer = store c.buffer v2gtp_header_length r.0.bytes;
      } in
      let ready = record conn {
        byte_pos = v2gtp_header_length;
        data_size = len + v2gtp_header_length;
      } in
      if leb (4294967295 - v2gtp_header_length) len
      then (negsuc 0, record c { payload_len = len }, l)
      else if ltb default_buffer_size (len + v2gtp_header_length)
      then (negsuc 0, record c { payload_len = len }, l)
      else elim r.0.value [
        | negsuc _ ↦ (negsuc 0, conn, r.1)
        | pos n ↦ if n == len then (pos 0, ready, r.1) else (negsuc 0, conn, r.1)
      ]

  -- After the call of `V2GTP_ReadHeader`.
  unfoldable pub process_header : Conn → t.Link → Option ℕ → ℤ × Conn × t.Link
  unfolding read_payload
  process_header c l none = (negsuc 0, c, l)
  process_header c l (some len) = read_payload c l len

  unfoldable pub v2g_incoming_v2gtp : (List ℕ → Option ℕ) → Conn → t.Link → ℤ × Conn × t.Link
  unfolding process_header store
  v2g_incoming_v2gtp read_header c l =
      let r = t.read l v2gtp_header_length in
      let conn = record c { buffer = store c.buffer 0 r.0.bytes } in
      elim r.0.value [
        | negsuc _ ↦ (negsuc 0, conn, r.1)
        | pos n ↦
            if n == 0
            then (pos 1, conn, r.1)
            else if not (n == v2gtp_header_length)
            then (negsuc 0, conn, r.1)
            else process_header conn r.1 (read_header (take v2gtp_header_length conn.buffer))
      ]

store-length :
    (memory : List ℕ) (at : ℕ) (bytes : List ℕ)
    → at + length bytes ≤ length memory
    → length (store memory at bytes) ≡ length memory
unfolding store
store-length memory at bytes h = omega (
  arith,
  length-append (take at memory) (bytes ++ drop (at + length bytes) memory),
  length-append bytes (drop (at + length bytes) memory),
  length-take at memory,
  length-drop (at + length bytes) memory,
  h,
)

module _ (t : Transport) where
  -- A payload is taken in only if it fits, and no store goes past the end of the buffer.
  Fits : ℤ × Conn × t.Link → Type 0
  Fits x =
      (length x.1.buffer ≡ default_buffer_size)
      × ((x.0 ≡ pos 0)
            × (x.1.byte_pos ≡ v2gtp_header_length)
            × (x.1.data_size ≡ x.1.payload_len + v2gtp_header_length)
            × (x.1.data_size ≤ length x.1.buffer)
          ⊎ x.0 ≡ pos 1
          ⊎ x.0 ≡ negsuc 0)

  read_payload-Fits :
      (c : Conn) (l : t.Link) (len : ℕ)
      → length c.buffer ≡ default_buffer_size
      → Fits (read_payload t c l len)
  unfolding Fits read_payload
  read_payload-Fits c l len h = ground (
    arith,
    (t.read-IsBounded l len).0,
    store-length c.buffer v2gtp_header_length (t.read l len).0.bytes,
  )

  process_header-Fits :
      (c : Conn) (l : t.Link) (len : Option ℕ)
      → length c.buffer ≡ default_buffer_size
      → Fits (process_header t c l len)
  unfolding Fits process_header
  process_header-Fits c l none h = ground arith
  process_header-Fits c l (some len) h = read_payload-Fits c l len h

  -- For every transport that stores no more bytes than it is asked for and every reader of headers, a
  -- buffer of 8192 bytes is never written past its end, the result is 0, 1 or -1, and after 0 the
  -- stream begins after the header and its size is the payload's length and the header's, within the
  -- buffer.
  pub v2g_incoming_v2gtp-fits :
      (read_header : List ℕ → Option ℕ) (c : Conn) (l : t.Link)
      → length c.buffer ≡ default_buffer_size
      → let x = v2g_incoming_v2gtp t read_header c l in
        (length x.1.buffer ≡ default_buffer_size)
        × ((x.0 ≡ pos 0)
              × (x.1.byte_pos ≡ v2gtp_header_length)
              × (x.1.data_size ≡ x.1.payload_len + v2gtp_header_length)
              × (x.1.data_size ≤ length x.1.buffer)
            ⊎ x.0 ≡ pos 1
            ⊎ x.0 ≡ negsuc 0)
  unfolding v2g_incoming_v2gtp Fits
  v2g_incoming_v2gtp-fits read_header c l h =
      let r = t.read l v2gtp_header_length in
      let buffer = store c.buffer 0 r.0.bytes in
      ground (
        arith,
        (t.read-IsBounded l v2gtp_header_length).0,
        store-length c.buffer 0 r.0.bytes,
        process_header-Fits (record c { buffer = buffer }) r.1
            (read_header (take v2gtp_header_length buffer)),
      )
