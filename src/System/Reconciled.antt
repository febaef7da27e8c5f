-- ===== src/System/Reconciled.antt =====
-- A reconcile of a run keeps the runs of the namespace fair.
use etok.Base.{
  ℕ, ◌≡◌, refl, sym, ap, ◌∙◌, ◌⊎◌, inl, inr, String, true, false, some, arith, get_elem?, set_elem,
  subst,
}
use etok.Commands.{is_queueable}
use etok.Labels.{Version}
use etok.Api.Run.{Run}
use etok.Kube.{Client}
use etok.RunController.Keeps.{SameRun, Keeps, process_chain-Keeps}
use etok.RunController.Pods.{HasPod, IsServer, Turn, process_chain-Turn}
use etok.System.{System, Reconciliation, written}
use etok.System.Listed.{names-injective, names-set_elem, get_elem?-set_elem}
use etok.System.Fair.{IsFair, IsOrderly, written-IsFair}

module _ (k : Client) (server : IsServer k) (version : Version) (image : String) where
  module _ (w : System k.State) (h : IsOrderly k w) (c : Reconciliation k version image w) where
    reconciled_pods :
        (other : Run)
        → HasPod k c.after other
        → HasPod k w.cluster other
          ⊎ ((c.run.name ≡ other.name)
              × ((is_queueable c.run.command ≡ false) ⊎ (c.ws.status.active ≡ c.run.name)))
    reconciled_pods =
        subst (Turn k version image c.now c.later server c.run c.ws w.cluster) c.answer
          (process_chain-Turn k version image c.now c.later server c.run c.ws w.cluster)

    reconciled-SameRun : SameRun c.left c.run
    reconciled-SameRun =
        subst (Keeps c.run) c.answer
          (process_chain-Keeps k version image c.now c.later c.run c.ws w.cluster)

    own_turn :
        is_queueable c.run.command ≡ true
        → HasPod k c.after c.run
        → c.run.workspace ≡ w.workspace.name
        → w.workspace.status.active ≡ c.run.name
    own_turn q there own = elim (reconciled_pods c.run there) [
      | inl before ↦ (h.2 c.index c.run c.listed).2 own q c.going before
      | inr (_, inl free) ↦ ground arith
      | inr (_, inr active) ↦ ap (λ x. x.status.active) (sym (c.own own)) ∙ active
    ]

    -- Every run, the one reconciled or another, is fair when its status is not written.
    pub interrupted-IsFair :
        (j : ℕ) (run : Run) → get_elem? w.runs j ≡ some run → IsFair k w.workspace c.after run
    interrupted-IsFair j run at =
        let (named, enqueued, turn) = h.2 j run at in
        (
          named,
          enqueued,
          λ own q going there. elim (reconciled_pods run there) [
            | inl before ↦ turn own q going before
            | inr (same, _) ↦
                let it = (names-injective w.runs c.index j c.run run h.1 c.listed at same).1 in
                subst
                  (λ x.
                    HasPod k c.after x
                    → is_queueable x.command ≡ true
                    → x.workspace ≡ w.workspace.name
                    → w.workspace.status.active ≡ x.name)
                  it (λ p q o. own_turn q p o) there q own
          ],
        )

    pub reconciled-IsOrderly :
        IsOrderly k
          (record w { runs = set_elem c.index (written k c.run c.left) w.runs; cluster = c.after })
    unfolding written
    reconciled-IsOrderly = (
      h.0,
      rw (names-set_elem w.runs c.index c.run (written k c.run c.left) c.listed refl) h.1,
      λ j run at. elim (get_elem?-set_elem w.runs c.index j (written k c.run c.left) run at) [
        | inl (_, same) ↦ rw same (
            written-IsFair k w.workspace w.cluster c.after c.run c.left reconciled-SameRun c.going
              own_turn (h.2 c.index c.run c.listed))
        | inr (_, at') ↦ interrupted-IsFair j run at'
      ],
    )
