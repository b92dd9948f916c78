-- ===== src/Ipc/Server/Dispatch/Accept.antt =====
-- The connections that accept_new_clients of src/ipc_server.c adds to the client slots.
use agentx_subagent.Prelude.{
  ℕ, zero, suc, ◌+◌, ◌≡◌, ◌≢◌, refl, sym, ap, subst, ◌∙◌, true, false, Bool-cases, Option, none,
  some, List, [], ◌∷◌, length, get_elem?, set, All, inl, inr, arith,
}
use agentx_subagent.Prelude.Int.{pos}
use agentx_subagent.Ipc.Connection.{Client, max_clients}
use agentx_subagent.Ipc.Server.Framing.Bounds.{IsSlot}
use agentx_subagent.Ipc.Server.Dispatch.{
  AcceptOutcome, accepted, free_slot_from, find_free_slot, placed, accept_new_clients,
}

-- The slots of a server between two dispatches.
abbrev pub IsWellFormed : List Client → Type 0
IsWellFormed clients = (length clients ≡ max_clients) × All IsSlot clients

fresh-IsSlot : (fd : ℕ) → IsSlot (record { fd = pos fd; in_use = true; buf = [] })
fresh-IsSlot fd = (omega arith, λ shut. absurd (ground arith))

set-All :
    (c : Client) (clients : List Client) (i : ℕ)
    → IsSlot c
    → All IsSlot clients
    → All IsSlot (set clients i c)
set-All c [] i h all = tt
set-All c (d ∷ ds) zero h all = (h, all.1)
set-All c (d ∷ ds) (suc i) h all = (all.0, set-All c ds i h all.1)

length-set :
    (c : Client) (clients : List Client) (i : ℕ) → length (set clients i c) ≡ length clients
length-set c [] i = refl
length-set c (d ∷ ds) zero = refl
length-set c (d ∷ ds) (suc i) = ap suc (length-set c ds i)

placed-IsWellFormed :
    (fd : ℕ) (slot : Option ℕ) (st : List Client × List ℕ)
    → IsWellFormed st.0
    → IsWellFormed (placed fd slot st).0
placed-IsWellFormed fd none st wf = wf
placed-IsWellFormed fd (some i) st (len, all) =
    (length-set _ st.0 i ∙ len, set-All _ st.0 i (fresh-IsSlot fd) all)

pub accept-IsWellFormed :
    (accepts : List AcceptOutcome) (st : List Client × List ℕ)
    → IsWellFormed st.0
    → IsWellFormed (accept_new_clients accepts st).0
unfolding accept_new_clients
accept-IsWellFormed [] st wf = wf
accept-IsWellFormed (accepted fd ∷ accepts) st wf =
    accept-IsWellFormed accepts _ (placed-IsWellFormed fd (find_free_slot st.0) st wf)
accept-IsWellFormed (AcceptOutcome.interrupted ∷ accepts) st wf = accept-IsWellFormed accepts st wf
accept-IsWellFormed (AcceptOutcome.failed ∷ accepts) st wf = wf

-- The slot that find_free_slot names holds no connection.
free_slot_lem :
    (clients : List Client) (k i : ℕ)
    → free_slot_from k clients ≡ some i
    → (j : ℕ) × (i ≡ k + j) × ((c : Client) → get_elem? clients j ≡ some c → c.in_use ≡ false)
free_slot_lem [] k i h = absurd (ground arith)
free_slot_lem (c ∷ cs) k i h = elim (Bool-cases c.in_use) [
  | inl up ↦
      let (j, e, free) = free_slot_lem cs (suc k) i (rw up at h) in (suc j, omega (arith, e), free)
  | inr shut ↦
      let at_k : some k ≡ some i = (rw shut at h) in
      (0, ground (arith, at_k), λ d e. ground (arith, shut, e))
]

get-set_other :
    (c d : Client) (clients : List Client) (i j : ℕ)
    → i ≢ j
    → get_elem? (set clients i c) j ≡ get_elem? clients j
get-set_other c d [] i j ne = refl
get-set_other c d (e ∷ es) zero zero ne = absurd (ne refl)
get-set_other c d (e ∷ es) zero (suc j) ne = refl
get-set_other c d (e ∷ es) (suc i) zero ne = refl
get-set_other c d (e ∷ es) (suc i) (suc j) ne = get-set_other c d es i j (λ h. ne (ap suc h))

-- accept_new_clients leaves every open connection in its slot, with its descriptor and its
-- buffered bytes, however many connections arrive.
pub accept-undisturbed :
    (accepts : List AcceptOutcome) (st : List Client × List ℕ) (i : ℕ) (c : Client)
    → get_elem? st.0 i ≡ some c
    → c.in_use ≡ true
    → get_elem? (accept_new_clients accepts st).0 i ≡ some c
unfolding accept_new_clients find_free_slot
accept-undisturbed [] st i c here up = here
accept-undisturbed (accepted fd ∷ accepts) st i c here up =
    accept-undisturbed accepts _ i c (by_slot (find_free_slot st.0) refl) up
  where
    occupied : (k : ℕ) → find_free_slot st.0 ≡ some k → i ≢ k
    occupied k e same =
        let (j, at, free) = free_slot_lem st.0 0 k e in
        ground
          (arith, free c (subst (λ n. get_elem? st.0 n ≡ some c) (omega (arith, same, at)) here))

    by_slot :
        (slot : Option ℕ) → find_free_slot st.0 ≡ slot → get_elem? (placed fd slot st).0 i ≡ some c
    by_slot none e = here
    by_slot (some k) e = get-set_other _ c st.0 k i (λ same. occupied k e (sym same)) ∙ here
accept-undisturbed (AcceptOutcome.interrupted ∷ accepts) st i c here up =
    accept-undisturbed accepts st i c here up
accept-undisturbed (AcceptOutcome.failed ∷ accepts) st i c here up = here
