-- ===== src/Session/Init.antt =====
-- The set-up of the session pool in src/teavpn2/server/linux/udp.c: init_udp_session_array(),
-- init_udp_session_map() and init_udp_session_stack(). A failed allocation or mutex is an errno.
pub mod Fresh
use teavpn.Common.{
  ℕ, zero, suc, ◌+◌, Bool, true, Option, none, some, List, [], if◌then◌else◌, set, replicate, Ret,
  ret, fail,
}
use teavpn.Stack
use teavpn.Stack.{BtStack}
use teavpn.Session.{UdpSess, Bucket, Pool, reset_udp_session}

-- what calloc() gives for a session and for a bucket
abbrev pub zeroed : UdpSess
zeroed = record (reset_udp_session 0) { username = replicate 256 0 }

abbrev pub no_bucket : Bucket
no_bucket = record { sess = none; next = [] }

-- `state` before the set-up, as calloc_wrp() gives it: no arrays yet.
abbrev pub blank : Pool
blank = record {
  sess_stk = record { sp = 0; max_sp = 0; arr = [] };
  sess_map = λ a b. no_bucket;
  sess_arr = [];
  n_on_sess = 0;
}

-- the loop of `init_udp_session_array` from `i` on, `rounds` times
reset_from : ℕ → ℕ → List UdpSess → List UdpSess
reset_from zero i arr = arr
reset_from (suc rounds) i arr = reset_from rounds (i + 1) (set arr i (reset_udp_session i))

unfoldable pub init_udp_session_array : Option ℕ → ℕ → Pool → Ret × Pool
unfolding reset_from
init_udp_session_array failed max_conn st = elim failed [
  | some e ↦ (fail e, st)
  | none ↦ (ret 0, record st { sess_arr = reset_from max_conn 0 (replicate max_conn zeroed) })
]

-- `failed` is the errno of calloc_wrp() or of mutex_init(); either leaves `sess_map` NULL.
unfoldable pub init_udp_session_map : Option ℕ → Pool → Ret × Pool
init_udp_session_map failed st = elim failed [
  | some e ↦ (fail e, st)
  | none ↦ (ret 0, record st { sess_map = λ a b. no_bucket })
]

-- The self test of a debug build, `rounds` times; a failed assertion is not followed further.
unfoldable pub retest : ℕ → BtStack → BtStack
retest zero stk = stk
retest (suc rounds) stk = retest rounds (Stack.bt_stack_test stk).1

-- `for (i = max_conn; i--;)`; `none` is the panic.
unfoldable pub push_down : ℕ → BtStack → Option BtStack
push_down zero stk = some stk
push_down (suc i) stk =
    let (r, stk') = Stack.push stk i in elim r [ none ↦ none | some v ↦ push_down i stk' ]

-- `none` is the panic; `debug` says that NDEBUG is not defined.
unfoldable pub init_udp_session_stack : Bool → Option ℕ → ℕ → Pool → Option (Ret × Pool)
unfolding Stack.init
init_udp_session_stack debug failed max_conn st = elim failed [
  | some e ↦ some (fail e, st)
  | none ↦ elim (Stack.init true max_conn) [
    | none ↦ none
    | some stk ↦
        let tested = if debug then retest 100 stk else stk in
        elim (push_down max_conn tested) [
          | none ↦ none
          | some full ↦ some (ret 0, record st { sess_stk = full })
        ]
  ]
]

-- The three calls as `teavpn2_server_udp_run` makes them, up to the first that fails.
unfoldable pub init_pool : Bool → Option ℕ → Option ℕ → Option ℕ → ℕ → Option (Ret × Pool)
init_pool debug no_array no_map no_stack max_conn =
    let (r, a) = init_udp_session_array no_array max_conn blank in
    elim r [
      | fail e ↦ some (fail e, a)
      | ret _ ↦
          let (r', b) = init_udp_session_map no_map a in
          elim r' [
            | fail e ↦ some (fail e, b)
            | ret _ ↦ init_udp_session_stack debug no_stack max_conn b
          ]
    ]
