-- ===== src/Server/Send/Frame.antt =====
-- What a send leaves alone.
use teavpn.Common.{ℕ, take, ◌≡◌, arith, List, [], ◌∷◌, Ret}
use teavpn.Session.{SockAddr}
use teavpn.Server.{Server, Attempt, session}
use teavpn.Server.Send.{emergency_wait, send_loop, send_to_client}

-- The same sessions, routes, limit, packet buffer and TUN device.
pub record Keeps (st st' : Server) : Type 0 where
  pub pool : st'.pool ≡ st.pool
  pub ipv4_map : st'.ipv4_map ≡ st.ipv4_map
  pub max_conn : st'.max_conn ≡ st.max_conn
  pub buf : st'.buf ≡ st.buf
  pub len : st'.len ≡ st.len
  pub written : st'.written ≡ st.written
  pub tun_answers : st'.tun_answers ≡ st.tun_answers

pub emergency_wait-Keeps : (polled : Ret) (st : Server) → Keeps st (emergency_wait polled st).1
unfolding emergency_wait
emergency_wait-Keeps polled st = ground arith

send_loop-Keeps :
    (answers : List Attempt) (dst : SockAddr) (bytes : List ℕ) (st : Server)
    → Keeps st (send_loop answers dst bytes st).1
unfolding send_loop
send_loop-Keeps [] dst bytes st = ground arith
send_loop-Keeps (a ∷ rest) dst bytes st =
    let asked = record st { udp_answers = rest } in
    ground (
      arith,
      emergency_wait-Keeps a.poll asked,
      send_loop-Keeps rest dst bytes (emergency_wait a.poll asked).1,
    )

pub send_to_client-Keeps : (st : Server) (i n : ℕ) → Keeps st (send_to_client st i n).1
unfolding send_to_client
send_to_client-Keeps st i n =
    ground (arith, send_loop-Keeps st.udp_answers (session st i).addr (take n st.buf) st)
