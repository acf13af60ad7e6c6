-- ===== src/Iface/Toggle/Plan.antt =====
-- The commands that set up the interface, as a list, and what running them in order does.
use teavpn.Common.{
  ◌⊎◌, ℕ, suc, ◌≤◌, ◌≡◌, refl, sym, ◌∙◌, ap, subst, arith, Bool, true, false, not, ◌&&◌, Bool-cases,
  Option, none, some, Option-cases, inl, inr, List, [], ◌∷◌, ◌==◌, if◌then◌else◌, length, take,
}
use teavpn.Packet.{cstr}
use teavpn.User.{IfInfo}
use teavpn.Iface.{System, Shell}
use teavpn.Iface.Words.{w_low_half, w_high_half}
use teavpn.Iface.Address.{Addresses, address_texts}
use teavpn.Iface.Toggle.{
  run, command, find_ip_cmd, default_gateway, go_on, link_text, addr_text, route_text, clear_text,
  half_text, is_empty, halves, public_route, routes_toggle, teavpn_iface_toggle,
}

-- A command, and whether its failure ends the set-up.
pub record Step : Type 0 where
  pub must : Bool
  pub cmd : List ℕ

abbrev needed : Bool → List ℕ → List ℕ → Step
needed quiet ip text = record { must = true; cmd = command quiet ip text }

-- The commands of a set-up, and its result if none fails that is needed.
abbrev pub Plan : Type 0
Plan = List Step × Bool

abbrev then_do : Step → Plan → Plan
then_do s (steps, ends) = (s ∷ steps, ends)

module _ (sys : System) (iface : IfInfo) (up quiet : Bool) where
  abbrev half_steps : List ℕ → Plan
  half_steps ip = if is_empty (cstr iface.ipv4_dgateway) then ([], true) else (
    needed quiet ip (half_text iface up w_low_half)
        ∷ needed quiet ip (half_text iface up w_high_half)
        ∷ [],
    true,
  )

  abbrev route_steps : List ℕ → List ℕ → Plan
  route_steps ip gateway =
      let add = then_do (needed quiet ip (route_text iface up gateway)) (half_steps ip) in
      if up then then_do (record { must = false; cmd = clear_text iface ip gateway }) add else add

  abbrev public_steps : List ℕ → Addresses → Plan
  public_steps ip a =
      if is_empty (cstr iface.ipv4_pub)
      then ([], true)
      else elim (default_gateway sys (addr_text iface up a)) [
        | none ↦ ([], false)
        | some gateway ↦ route_steps ip gateway
      ]

  -- The link goes up or down, then the address is added or deleted, then the routes: the one to the
  -- server's public address by the old default gateway (a rest of it deleted first), and the two halves
  -- of the address space through the tunnel. Nothing is run for addresses that are wrong or without the
  -- command `ip`; without a default gateway the set-up fails after the address.
  abbrev pub plan : Plan
  plan = elim (address_texts sys iface) [
    | none ↦ ([], false)
    | some a ↦ elim (find_ip_cmd sys) [
      | none ↦ ([], false)
      | some ip ↦
          then_do (needed quiet ip (link_text iface up sys))
            (then_do (needed quiet ip (addr_text iface up a)) (public_steps ip a))
    ]
  ]

-- The steps in order, to the first needed one that fails.
pub run_all : List Step → Bool → Shell → Bool × Shell
run_all [] ends st = (ends, st)
run_all (s ∷ steps) ends st =
    let (status, st') = run s.cmd st in
    let rest = run_all steps ends st' in if s.must && not (status == 0) then (false, st') else rest

abbrev pub perform : Plan → Shell → Bool × Shell
perform (steps, ends) st = run_all steps ends st

go_on-perform :
    (quiet : Bool) (ip text : List ℕ) (next : Shell → Bool × Shell) (p : Plan) (st : Shell)
    → ((st' : Shell) → next st' ≡ perform p st')
    → go_on (run (command quiet ip text) st) next ≡ perform (then_do (needed quiet ip text) p) st
unfolding go_on run_all
go_on-perform quiet ip text next p st h =
    let r = run (command quiet ip text) st in
    elim (Bool-cases (r.0 == 0)) [
      | inl e ↦ rw (e, go_on, run_all) (h r.1)
      | inr e ↦ rw (e, go_on, run_all) refl
    ]

module _ (sys : System) (iface : IfInfo) (quiet : Bool) where
  halves-perform :
      (up : Bool) (ip : List ℕ) (st : Shell)
      → halves iface up quiet ip st ≡ perform (half_steps sys iface up quiet ip) st
  unfolding halves run_all
  halves-perform up ip st = elim (Bool-cases (is_empty (cstr iface.ipv4_dgateway))) [
    | inl e ↦ rw (e, halves) refl
    | inr e ↦
        rw (e, halves)
          (go_on-perform quiet ip (half_text iface up w_low_half) _
            (needed quiet ip (half_text iface up w_high_half) ∷ [], true) st
            (λ st'.
              go_on-perform quiet ip (half_text iface up w_high_half) _ ([], true) st'
                (λ st''. refl)))
  ]

  public_route-perform :
      (up : Bool) (ip gateway : List ℕ) (st : Shell)
      → public_route iface up quiet ip gateway st
        ≡ perform (route_steps sys iface up quiet ip gateway) st
  unfolding public_route run_all
  public_route-perform true ip gateway st =
      go_on-perform quiet ip (route_text iface true gateway) _ (half_steps sys iface true quiet ip)
        (run (clear_text iface ip gateway) st).1 (halves-perform true ip)
  public_route-perform false ip gateway st =
      go_on-perform quiet ip (route_text iface false gateway) _
        (half_steps sys iface false quiet ip) st (halves-perform false ip)

  routes_toggle-perform :
      (up : Bool) (ip : List ℕ) (a : Addresses) (st : Shell)
      → routes_toggle sys iface up quiet ip a st ≡ perform (public_steps sys iface up quiet ip a) st
  unfolding routes_toggle run_all
  routes_toggle-perform up ip a st = elim (Bool-cases (is_empty (cstr iface.ipv4_pub))) [
    | inl e ↦ rw (e, routes_toggle) refl
    | inr e ↦
        rw (e, routes_toggle)
          (elim (Option-cases (default_gateway sys (addr_text iface up a))) [
            | inl f ↦ rw f refl
            | inr (gateway, f) ↦ rw f (public_route-perform up ip gateway st)
          ])
  ]

  toggle-perform :
      (up : Bool) (st : Shell)
      → teavpn_iface_toggle sys iface up quiet st ≡ perform (plan sys iface up quiet) st
  unfolding teavpn_iface_toggle run_all
  toggle-perform up st = go (address_texts sys iface) (find_ip_cmd sys) refl refl
    where
      go :
          (o : Option Addresses) (p : Option (List ℕ))
          → address_texts sys iface ≡ o
          → find_ip_cmd sys ≡ p
          → teavpn_iface_toggle sys iface up quiet st ≡ perform (plan sys iface up quiet) st
      go none p e f = rw (e, teavpn_iface_toggle, plan) refl
      go (some a) none e f = rw (e, f, teavpn_iface_toggle, plan) refl
      go (some a) (some ip) e f =
          rw (e, f, teavpn_iface_toggle, plan)
            (go_on-perform quiet ip (link_text iface up sys) _
              (then_do (needed quiet ip (addr_text iface up a))
                (public_steps sys iface up quiet ip a))
              st
              (λ st'.
                go_on-perform quiet ip (addr_text iface up a) _
                  (public_steps sys iface up quiet ip a) st' (routes_toggle-perform up ip a)))

-- The commands of steps, the last first, on top of what ran before.
abbrev pub onto : List Step → List (List ℕ) → List (List ℕ)
onto [] done = done
onto (s ∷ steps) done = onto steps (s.cmd ∷ done)

-- The first `k` steps were run, and a set-up that succeeds ran all.
abbrev pub RunsFirst : List Step → Shell → Bool × Shell → Type 0
RunsFirst steps st (good, st') =
    (k : ℕ) × (k ≤ length steps)
    × (st'.ran ≡ onto (take k steps) st.ran)
    × ((good ≡ false) ⊎ (k ≡ length steps))

run-ran : (cmd : List ℕ) (st : Shell) → (run cmd st).1.ran ≡ cmd ∷ st.ran
unfolding run
run-ran cmd st = ground arith

run_all-RunsFirst :
    (steps : List Step) (ends : Bool) (st : Shell) → RunsFirst steps st (run_all steps ends st)
unfolding run_all
run_all-RunsFirst [] ends st = (0, omega arith, refl, inr refl)
run_all-RunsFirst (s ∷ steps) ends st =
    let st' = (run s.cmd st).1 in
    let (k, few, ran, all) = run_all-RunsFirst steps ends st' in
    elim (Bool-cases (s.must && not ((run s.cmd st).0 == 0))) [
      | inl e ↦ rw (e, run_all) (1, omega arith, run-ran s.cmd st, inl refl)
      | inr e ↦
          rw (e, run_all)
            (
              suc k,
              omega arith,
              ran ∙ ap (onto (take k steps)) (run-ran s.cmd st),
              elim all [ inl f ↦ inl f | inr f ↦ inr (ap suc f) ],
            )
    ]

-- The set-up of the interface runs the commands of its plan, in order, up to the first needed one that
-- fails, and returns what running them so returns; if it returns true it has run them all.
pub teavpn_iface_toggle_lem :
    (sys : System) (iface : IfInfo) (up quiet : Bool) (st : Shell)
    → (teavpn_iface_toggle sys iface up quiet st ≡ perform (plan sys iface up quiet) st)
      × RunsFirst (plan sys iface up quiet).0 st (teavpn_iface_toggle sys iface up quiet st)
teavpn_iface_toggle_lem sys iface up quiet st =
    let e = toggle-perform sys iface quiet up st in
    let (steps, ends) = plan sys iface up quiet in
    (e, subst (RunsFirst steps st) (sym e) (run_all-RunsFirst steps ends st))
