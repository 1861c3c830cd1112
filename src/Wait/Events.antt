-- ===== src/Wait/Events.antt =====
-- The events of the wait machine keep all tracees consistent.
use proot.Prelude.{
  ℕ, ◌≡◌, ◌≢◌, refl, ap, sym, ◌∙◌, inl, inr, true, false, not, List, [], ◌∷◌, Option, none, some,
  ◌==◌, All, Bool-cases, ==_iff, Result, get_elem?,
}
use proot.Sysvipc.{Config, not_chained, update_config}
use proot.Sysvipc.Wake.{is_waiting}
use proot.Msg.{Queue, Ipc as MsgIpc, Memory as MsgMemory}
use proot.Msg.Receive.{
  is_retry, is_not_waiting, is_eagain, msgrcv_retry, retry_queue, end_retry, do_msgrcv, Received,
  store,
}
use proot.Wait.{stop_waiting}
use proot.Wait.Wakes.{IsConsistent}
use proot.Wait.Messages.{do_msgrcv-SameState}
use proot.Wait.Dispatch.{update_config-IsConsistent, is_waiting-not, not_chained-IsConsistent}

-- The tracee `me` has no reason to wait and nothing to try again; the others are consistent.
abbrev pub Rested : ℕ → Config → Type 0
Rested me d =
    (d.pid ≢ me → IsConsistent d)
    × (d.pid ≡ me → (is_waiting d.wait_reason ≡ false) × (d.chain_state ≡ not_chained))

pub stop_waiting-IsConsistent :
    (me : ℕ) (l : List Config)
    → All (Rested me) l
    → All IsConsistent (update_config me stop_waiting l)
stop_waiting-IsConsistent me l h =
    update_config-IsConsistent (Rested me) me stop_waiting l
      (λ d e r. not_chained-IsConsistent (stop_waiting d) (r.1 e).1 (r.1 e).0) (λ d n r. r.0 n) h

pub All-Rested :
    (c : Config) (l : List Config)
    → is_waiting c.wait_reason ≡ false
    → c.chain_state ≡ not_chained
    → All (λ d. d.pid ≡ c.pid → d ≡ c) l
    → All IsConsistent l
    → All (Rested c.pid) l
All-Rested c [] w n a h = tt
All-Rested c (d ∷ l) w n a h = (
  (
    (λ _. h.0),
    (λ e. (
      ap (λ (x : Config). is_waiting x.wait_reason) (a.0 e) ∙ w,
      ap (λ (x : Config). x.chain_state) (a.0 e) ∙ n,
    )),
  ),
  All-Rested c l w n a.1 h.1,
)

-- A change of the tracee `c`, which is alone with its process id.
pub update-Rested :
    (c : Config) (pid : ℕ) (f : Config → Config) (l : List Config)
    → pid ≡ c.pid
    → ((d : Config)
        → d ≡ c
        → (is_waiting (f d).wait_reason ≡ false)
          × ((f d).chain_state ≡ not_chained)
          × ((f d).pid ≡ c.pid))
    → All (λ d. d.pid ≡ c.pid → d ≡ c) l
    → All IsConsistent l
    → All (Rested c.pid) (update_config pid f l)
unfolding update_config
update-Rested c pid f [] p g a h = tt
update-Rested c pid f (d ∷ l) p g a h = elim (Bool-cases (d.pid == pid)) [
  | inl e ↦
      let facts = g d (a.0 ((==_iff d.pid pid).0 e ∙ p)) in
      rw e (
        ((λ n. absurd (n facts.2)), (λ _. (facts.0, facts.1))),
        update-Rested c pid f l p g a.1 h.1,
      )
  | inr e ↦ rw e (
    ((λ _. h.0), (λ k. absurd (false-true (sym e ∙ (==_iff d.pid pid).1 (k ∙ sym p))))),
    update-Rested c pid f l p g a.1 h.1,
  )
]
  where
    false-true : false ≡ true → ⊥
    false-true k = cc (k)

end_retry_facts :
    {M : Type 0} (mem : MsgMemory M) (time : ℕ) (r : Received M)
    → (is_waiting (end_retry mem time r).config.wait_reason ≡ false)
      × ((end_retry mem time r).config.chain_state ≡ not_chained)
      × ((end_retry mem time r).config.pid ≡ r.config.pid)
unfolding end_retry
end_retry_facts mem time r = elim (Bool-cases (is_not_waiting r.config.wait_reason)) [
  | inl e ↦ rw e (is_waiting-not r.config.wait_reason ∙ ap not e, refl, refl)
  | inr e ↦ rw e (refl, refl, refl)
]

module _ {M : Type 0} (memory : MsgMemory M) (time : ℕ) (ipc ipc' : MsgIpc M) (c : Config)
    (alone : All (λ d. d.pid ≡ c.pid → d ≡ c) ipc.configs) (h : All IsConsistent ipc.configs) where
  retry_queue-Rested :
      (r : Result ℕ) (o : Option Queue)
      → retry_queue memory time ipc (stop_waiting c) o ≡ some (r, ipc')
      → All (Rested c.pid) ipc'.configs
  unfolding retry_queue
  retry_queue-Rested r none e = cc (e)
  retry_queue-Rested r (some q) e = elim (Bool-cases q.valid) [
    | inr v ↦ cc (rw (retry_queue, v) at e)
    | inl v ↦
        let got = do_msgrcv memory time (stop_waiting c) c.waiting_object_index q ipc.memory in
        let ended = end_retry memory time got in
        let facts = end_retry_facts memory time got in
        let pid : ended.config.pid ≡ c.pid =
          facts.2
          ∙ (do_msgrcv-SameState memory time (stop_waiting c) c.waiting_object_index q
              ipc.memory).0 in
        let e' : some (ended.status, store memory time ipc c.waiting_object_index ended)
            ≡ some (r, ipc') =
          simp (retry_queue, v) at e in
        let same : update_config ended.config.pid (λ _. ended.config) ipc.configs ≡ ipc'.configs =
          ap (λ (o' : Option (Result ℕ × MsgIpc M)). elim o' [ none ↦ [] | some p ↦ p.1.configs ])
            e' in
        rw (← same) (
          update-Rested c ended.config.pid (λ _. ended.config) ipc.configs pid
            (λ d _. (facts.0, facts.1, pid)) alone h)
  ]

  pub msgrcv_retry-Rested :
      (r : Result ℕ)
      → is_waiting c.wait_reason ≡ false
      → is_retry c.chain_state ≡ true
      → msgrcv_retry memory time ipc (stop_waiting c) ≡ some (r, ipc')
      → All (Rested c.pid) ipc'.configs
  unfolding msgrcv_retry
  msgrcv_retry-Rested r w k e = elim (Bool-cases (is_eagain c.status_after_wait)) [
    | inl k' ↦
        retry_queue-Rested r (get_elem? ipc.queues c.waiting_object_index)
          (rw (msgrcv_retry, k, k') at e)
    | inr k' ↦
        let e' : some (
          c.status_after_wait,
          record ipc {
            configs = update_config c.pid (λ d. record d { chain_state = not_chained }) ipc.configs;
          },
        )
            ≡ some (r, ipc') =
          simp (msgrcv_retry, k, k') at e in
        let same : update_config c.pid (λ d. record d { chain_state = not_chained }) ipc.configs
            ≡ ipc'.configs =
          ap (λ (o' : Option (Result ℕ × MsgIpc M)). elim o' [ none ↦ [] | some p ↦ p.1.configs ])
            e' in
        rw (← same) (
          update-Rested c c.pid (λ d. record d { chain_state = not_chained }) ipc.configs refl
            (λ d q. (
              ap (λ (x : Config). is_waiting x.wait_reason) q ∙ w,
              refl,
              ap (λ (x : Config). x.pid) q,
            ))
            alone h)
  ]
