-- ===== src/Tests/Servers.antt =====
-- A server with one client that is not authenticated yet, and the same after its authentication.
use teavpn.Common.{
  ℕ, zero, suc, ◌≡◌, ◌≢◌, refl, arith, true, false, some, [], ◌∷◌, replicate, ret, fail, ebadmsg,
}
use teavpn.Session.{sess_at, map_insert, create_udp_sess}
use teavpn.Stack
use teavpn.Server.{Server, Env, Attempt}
use teavpn.Server.Auth.{admit}
use teavpn.Server.Valid.{IsValid}
use teavpn.Server.Valid.Auth.{Quiet, admit-IsValid}
use teavpn.Server.Reach.{started, started-IsValid, no_route, no_ret}
use teavpn.Tests.Pools.{fresh_pool, fresh_run, one_client, one_client-IsValid, one_client-used}

-- The kernel takes every packet at once.
abbrev pub taken : Attempt
taken = record { io = ret 516; poll = ret 1 }

-- The files accept everybody, with the address 10.0.0.2.
abbrev pub welcoming : Env
welcoming = record {
  now = some 200;
  allocated = true;
  auth = λ name pass. some (replicate 82 0);
  inet_addr = λ text. 167772162;
  reject_msg = λ len buf. [];
}

-- Nobody has come yet; the kernel takes four packets.
abbrev pub waiting : Server
waiting = record (started 4 fresh_pool) { udp_answers = taken ∷ taken ∷ taken ∷ taken ∷ [] }

pub waiting-IsValid : IsValid waiting
waiting-IsValid =
    let v = started-IsValid true 4 fresh_pool (omega arith) (omega arith) fresh_run in
    record { pool = v.pool; members = v.members; routes = v.routes; buffer = v.buffer }

taken-ne : taken.io ≢ fail ebadmsg
taken-ne = λ e. ground (arith, e)

pub waiting-Quiet : Quiet waiting.udp_answers
waiting-Quiet = (taken-ne, (taken-ne, (taken-ne, (taken-ne, tt))))

-- The client of session 0 has come, and is not authenticated.
abbrev pub greeted : Server
greeted = record waiting { pool = one_client }

pub unknown : (i : ℕ) → (sess_at one_client.sess_arr i).is_authenticated ≡ false
unfolding create_udp_sess Stack.pop map_insert
unknown zero = refl
unknown (suc zero) = refl
unknown (suc (suc zero)) = refl
unknown (suc (suc (suc zero))) = refl
unknown (suc (suc (suc (suc i)))) = refl

pub greeted-IsValid : IsValid greeted
greeted-IsValid = record {
  pool = one_client-IsValid;
  members = λ i. ground (arith, unknown i);
  routes = λ a i clear route. absurd (no_ret i (no_route a) route);
  buffer = waiting-IsValid.buffer;
}

-- The client is authenticated and has the address 10.0.0.2.
abbrev pub member : Server
member = admit welcoming (97 ∷ []) greeted 0

pub member-IsValid : IsValid member
member-IsValid = admit-IsValid welcoming (97 ∷ []) greeted-IsValid 0 one_client-used (unknown 0)
