-- ===== src/Session.antt =====
-- The session pool of src/teavpn2/server/linux/udp_session.c with `struct udp_sess` and
-- `struct udp_map_bucket` of udp.h. A pointer to a session is its index in `sess_arr`.
pub mod Valid
pub mod Lookup
pub mod Update
pub mod Insert
pub mod Create
pub mod Delete
pub mod Init
use teavpn.Common.{
  ℕ, zero, suc, ◌+◌, ◌-◌, ◌%◌, ◌^◌, Bool, true, false, ◌&&◌, Option, none, some, List, [], ◌∷◌,
  ◌++◌, ◌==◌, if◌then◌else◌, get_or, set, replicate, Grid, grid_set, byte0, byte1, Ret, ret, fail,
  eagain, enomem, enoent,
}
use teavpn.Stack
use teavpn.Stack.{BtStack}

-- `struct sockaddr_in`, as far as the server sets it: address and port, in network order.
pub record SockAddr : Type 0 where
  pub sin_addr : ℕ
  pub sin_port : ℕ

-- `struct udp_sess`. `str_src_addr`, a text of `src_addr` for messages, is left out.
pub record UdpSess : Type 0 where
  pub ipv4_iff : ℕ
  pub src_addr : ℕ
  pub src_port : ℕ
  pub idx : ℕ
  pub last_act : ℕ
  pub addr : SockAddr
  pub username : List ℕ
  pub loop_c : ℕ
  pub err_c : ℕ
  pub is_authenticated : Bool
  pub is_connected : Bool

-- The name of a session before authentication: `_` in a field of 256 bytes.
unfoldable pub no_name : List ℕ
no_name = b'_' ∷ replicate 255 0

-- `reset_udp_session`: zeros, but for the first byte of the name and the index
abbrev pub reset_udp_session : ℕ → UdpSess
reset_udp_session idx = record {
  ipv4_iff = 0;
  src_addr = 0;
  src_port = 0;
  idx = idx;
  last_act = 0;
  addr = record { sin_addr = 0; sin_port = 0 };
  username = no_name;
  loop_c = 0;
  err_c = 0;
  is_authenticated = false;
  is_connected = false;
}

-- `struct udp_map_bucket`: the session in the table's own cell, and those in the cells that were
-- allocated behind it. Such a cell always holds a session until it is freed.
pub record Bucket : Type 0 where
  pub sess : Option ℕ
  pub next : List ℕ

-- The fields of `struct srv_udp_state` that hold sessions. `n_on_sess` is a 16-bit counter.
pub record Pool : Type 0 where
  pub sess_stk : BtStack
  pub sess_map : Grid Bucket
  pub sess_arr : List UdpSess
  pub n_on_sess : ℕ

-- `state->sess_arr[i]`
abbrev pub sess_at : List UdpSess → ℕ → UdpSess
sess_at arr i = get_or arr i (reset_udp_session 0)

-- `addr_to_bkt`
abbrev pub addr_to_bkt : Grid Bucket → ℕ → Bucket
addr_to_bkt m addr = m (byte0 addr) (byte1 addr)

-- The sessions of a bucket, in the order in which a walk along `next` meets them.
abbrev pub cells : Bucket → List ℕ
cells bkt = elim bkt.sess [ none ↦ bkt.next | some i ↦ i ∷ bkt.next ]

-- `map_insert_udp_sess` at its bucket; `none` is the result NULL. `allocated` says whether malloc()
-- returned memory, which is asked for only if the first cell is taken.
unfoldable pub map_insert : Bool → Bucket → ℕ → Option Bucket
map_insert allocated bkt i = elim bkt.sess [
  | none ↦ some (record { sess = some i; next = [] })
  | some _ ↦ if allocated then some (record bkt { next = bkt.next ++ (i ∷ []) }) else none
]

-- `get_unix_time` into a field: `none` is a failed gettimeofday(), which leaves it as it was.
abbrev pub stamp : Option ℕ → ℕ → ℕ
stamp now old = elim now [ none ↦ old | some t ↦ t ]

-- The writes of `create_udp_sess` to the new session before and after it is put on the map.
abbrev pub addressed : ℕ → ℕ → UdpSess → UdpSess
addressed addr port s = record s { src_addr = addr; src_port = port }

abbrev pub connected : Option ℕ → UdpSess → UdpSess
connected now s = record s { last_act = stamp now s.last_act; is_connected = true }

-- `create_udp_sess`: the index of the new session, or `errno` where it returns NULL.
unfoldable pub create_udp_sess : Bool → Option ℕ → Pool → ℕ → ℕ → Ret × Pool
unfolding grid_set
create_udp_sess allocated now st addr port =
    let (popped, stk) = Stack.pop st.sess_stk in
    elim popped [
      | none ↦ (fail eagain, record st { sess_stk = stk })
      | some idx ↦
          let s = addressed addr port (sess_at st.sess_arr idx) in
          elim (map_insert allocated (addr_to_bkt st.sess_map addr) idx) [
            | none ↦ (
              fail enomem,
              record st { sess_stk = (Stack.push stk idx).1; sess_arr = set st.sess_arr idx s },
            )
            | some bkt ↦ (
              ret idx,
              record {
                sess_stk = stk;
                sess_map = grid_set st.sess_map (byte0 addr) (byte1 addr) bkt;
                sess_arr = set st.sess_arr idx (connected now s);
                n_on_sess = (st.n_on_sess + 1) % 2 ^ 16;
              },
            )
          ]
    ]

-- `(ret->src_addr == addr) && (ret->src_port == port)`
abbrev pub is_from : UdpSess → ℕ → ℕ → Bool
is_from s addr port = (s.src_addr == addr) && (s.src_port == port)

-- the walk of `lookup_udp_sess` along a bucket
pub scan : List UdpSess → ℕ → ℕ → List ℕ → Option ℕ
scan arr addr port [] = none
scan arr addr port (i ∷ rest) =
    if is_from (sess_at arr i) addr port then some i else scan arr addr port rest

-- `lookup_udp_sess`
unfoldable pub lookup_udp_sess : Pool → ℕ → ℕ → Option ℕ
unfolding scan
lookup_udp_sess st addr port = scan st.sess_arr addr port (cells (addr_to_bkt st.sess_map addr))

-- the allocated cells without the one that holds `i`
pub unlink : List ℕ → ℕ → Option (List ℕ)
unlink [] i = none
unlink (j ∷ rest) i =
    if j == i
    then some rest
    else elim (unlink rest i) [ none ↦ none | some rest' ↦ some (j ∷ rest') ]

unlinked : Bucket → ℕ → Option Bucket
unlinked bkt i = elim (unlink bkt.next i) [
  | none ↦ none
  | some rest ↦ some (record bkt { next = rest })
]

-- the table's own cell takes over the first allocated one, if there is one
refill : List ℕ → Bucket
refill [] = record { sess = none; next = [] }
refill (j ∷ rest) = record { sess = some j; next = rest }

-- `remove_sess_from_bkt` at its bucket; `none` is the result -ENOENT.
unfoldable pub remove_sess_from_bkt : Bucket → ℕ → Option Bucket
unfolding unlink unlinked refill
remove_sess_from_bkt bkt i = elim bkt.sess [
  | none ↦ unlinked bkt i
  | some j ↦ if j == i then some (refill bkt.next) else unlinked bkt i
]

-- `delete_udp_session`. A failed push would be reported by BUG_ON(), which goes on; the counter
-- wraps.
unfoldable pub delete_udp_session : Pool → ℕ → Ret × Pool
unfolding grid_set
delete_udp_session st i =
    let s = sess_at st.sess_arr i in
    let stk = (Stack.push st.sess_stk s.idx).1 in
    let arr = set st.sess_arr i (reset_udp_session s.idx) in
    let n = (st.n_on_sess + (2 ^ 16 - 1)) % 2 ^ 16 in
    elim (remove_sess_from_bkt (addr_to_bkt st.sess_map s.src_addr) i) [
      | none ↦ (
        fail enoent,
        record { sess_stk = stk; sess_map = st.sess_map; sess_arr = arr; n_on_sess = n },
      )
      | some bkt ↦ (
        ret 0,
        record {
          sess_stk = stk;
          sess_map = grid_set st.sess_map (byte0 s.src_addr) (byte1 s.src_addr) bkt;
          sess_arr = arr;
          n_on_sess = n;
        },
      )
    ]
