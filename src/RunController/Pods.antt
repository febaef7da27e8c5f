-- ===== src/RunController/Pods.antt =====
-- Whose pods come to be in the updaters of a run.
use etok.Base.{
  ℕ, ◌≡◌, refl, sym, ap, ◌∙◌, ◌⊎◌, inl, inr, String, Bool, true, false, Option, none, some, arith,
}
use etok.Commands.{is_queueable}
use etok.Labels.{Version, set_label, set_common_labels}
use etok.Api.Meta.{ObjectMeta}
use etok.Api.Run.{Run, pod_name}
use etok.Api.Workspace.{Workspace}
use etok.Kube
use etok.Kube.{Error, Get, Result, Client, Object, ok, err, run_object, pod_object}
use etok.Kube.Pods.{Pod}
use etok.RunPod.{run_pod}
use etok.RunController.Manage.{
  Step, step, panic, manage_queue, manage_pod, manage_found, create_pod, follow_pod,
}
use etok.RunController.Turns.{manage_queue-proceeds}
use etok.RunController.Reconcile.{process_chain, next_pod}

-- The pod of a run is on the server.
abbrev pub HasPod : (k : Client) → k.State → Run → Type 0
HasPod k s run = (pod : Pod) × (k.get_pod run.namespace run.name s ≡ Kube.Get.found pod)

-- What is relied on of the server and of controllerutil: an owner reference leaves the name of an
-- object, and the creation of a pod, whether or not it fails, adds no pod of another name.
pub record IsServer (k : Client) : Type 0 where
  pub reference-name :
      (owner : Object) (m m' : ObjectMeta)
      → k.set_controller_reference owner m ≡ ok m'
      → m'.name ≡ m.name
  pub create-pod :
      (p : Pod) (s : k.State) (run : Run)
      → HasPod k (k.create (pod_object p) s).1 run
      → HasPod k s run ⊎ (p.name ≡ run.name)

module _ (k : Client) (version : Version) (image : String) (now later : ℕ) where
  -- No pod is there afterwards but those before and that of the run.
  abbrev pub Adds : Run → k.State → Step k.State → Type 0
  Adds run s panic = Unit
  Adds run s (step r bail e s') =
      (other : Run) → HasPod k s' other → HasPod k s other ⊎ (run.name ≡ other.name)

  module _ (server : IsServer k) where
    run_pod-name :
        (run : Run) (ws : Workspace) (secret_found service_account_found : Bool)
        → (run_pod version run ws secret_found service_account_found image).name ≡ run.name
    unfolding run_pod set_label set_common_labels pod_name
    run_pod-name run ws secret_found service_account_found = refl

    created-Adds :
        (run : Run) (c : Run) (pod : Pod) (s : k.State)
        → pod.name ≡ run.name
        → (x : Option Error × k.State) → k.create (pod_object pod) s ≡ x
        → Adds run s (
            let (failure, s') = x in
            elim failure [ some e ↦ step run false (some e) s' | none ↦ step c false none s' ])
    created-Adds run c pod s named x made = go x made
      where
        adds :
            (s' : k.State) (other : Run)
            → (k.create (pod_object pod) s).1 ≡ s'
            → HasPod k s' other
            → HasPod k s other ⊎ (run.name ≡ other.name)
        adds s' other after there = elim (server.create-pod pod s other (rw after there)) [
          | inl before ↦ inl before
          | inr same ↦ inr (sym named ∙ same)
        ]

        go :
            (x : Option Error × k.State)
            → k.create (pod_object pod) s ≡ x
            → Adds run s (
                let (failure, s') = x in
                elim failure [ some e ↦ step run false (some e) s' | none ↦ step c false none s' ])
        go (some e, s') made = λ other. adds s' other (ap (λ p. p.1) made)
        go (none, s') made = λ other. adds s' other (ap (λ p. p.1) made)

    create_pod-Adds :
        (run : Run) (ws : Workspace) (secret_found service_account_found : Bool) (s : k.State)
        → Adds run s
            (create_pod k version image now later run ws secret_found service_account_found s)
    unfolding create_pod
    create_pod-Adds run ws secret_found service_account_found s = go _ refl
      where
        pod : Pod
        pod = run_pod version run ws secret_found service_account_found image

        go :
            (o : Result ObjectMeta)
            → k.set_controller_reference (run_object run) pod.metadata ≡ o
            → Adds run s
                (create_pod k version image now later run ws secret_found service_account_found s)
        go (err e) p = rw (p, create_pod) (λ other h. inl h)
        go (ok meta) p =
            rw (p, create_pod)
              (created-Adds run _ (record pod { metadata = meta }) s
                (server.reference-name (run_object run) pod.metadata meta p
                  ∙ run_pod-name run ws secret_found service_account_found)
                (k.create (pod_object (record pod { metadata = meta })) s) refl)

    follow_pod-Adds :
        (run : Run) (pod : Pod) (s : k.State)
        → Adds run s (follow_pod k.conditions now later run pod s)
    unfolding follow_pod
    follow_pod-Adds run pod s = ground arith

    manage_found-Adds :
        (run : Run) (ws : Workspace) (secret_found service_account_found : Bool) (o : Get Pod)
        (s : k.State)
        → Adds run s
            (manage_found k version image now later run ws secret_found service_account_found o s)
    unfolding manage_found
    manage_found-Adds run ws a b Kube.Get.not_found s = create_pod-Adds run ws a b s
    manage_found-Adds run ws a b (Kube.Get.failed e) s = λ other h. inl h
    manage_found-Adds run ws a b (Kube.Get.found pod) s = follow_pod-Adds run pod s

    manage_pod-Adds :
        (run : Run) (ws : Workspace) (s : k.State)
        → Adds run s (manage_pod k version image now later run ws s)
    unfolding manage_pod
    manage_pod-Adds run ws s = go _ _
      where
        go :
            (a b : Result Bool)
            → Adds run s (elim a [
              | err e ↦ step run false (some e) s
              | ok secret_found ↦ elim b [
                | err e ↦ step run false (some e) s
                | ok service_account_found ↦
                    manage_found k version image now later run ws secret_found service_account_found
                      (k.get_pod run.namespace run.name s)
                      s
              ]
            ])
        go (err e) b = λ other h. inl h
        go (ok a) (err e) = λ other h. inl h
        go (ok a) (ok b) = manage_found-Adds run ws a b (k.get_pod run.namespace run.name s) s

    -- What a run may do in the updaters: only on its turn does its pod come to be.
    abbrev pub Turn : Run → Workspace → k.State → Step k.State → Type 0
    Turn run ws s panic = Unit
    Turn run ws s (step r bail e s') =
        (other : Run)
        → HasPod k s' other
        → HasPod k s other
          ⊎ ((run.name ≡ other.name)
              × ((is_queueable run.command ≡ false) ⊎ (ws.status.active ≡ run.name)))

    manage_queue-state :
        (run r : Run) (ws : Workspace) (bail : Bool) (e : Option Error) (s s' : k.State)
        → manage_queue k.conditions now later run ws s ≡ step r bail e s'
        → s' ≡ s
    unfolding manage_queue
    manage_queue-state run r ws bail e s s' p = ground arith

    Adds-Turn :
        (run : Run) (ws : Workspace) (s : k.State) (q : Step k.State)
        → (is_queueable run.command ≡ false) ⊎ (ws.status.active ≡ run.name)
        → Adds run s q
        → Turn run ws s q
    Adds-Turn run ws s panic turn h = tt
    Adds-Turn run ws s (step r bail e s') turn h = λ other there. elim (h other there) [
      | inl before ↦ inl before
      | inr same ↦ inr (same, turn)
    ]

    still-Turn :
        (run r : Run) (ws : Workspace) (bail : Bool) (e : Option Error) (s s' : k.State)
        → s' ≡ s
        → Turn run ws s (step r bail e s')
    still-Turn run r ws bail e s s' still other there = inl (rw (← still) there)

    next_pod-Turn :
        (run : Run) (ws : Workspace) (s : k.State) (q : Step k.State)
        → manage_queue k.conditions now later run ws s ≡ q
        → Turn run ws s (elim q [
          | panic ↦ panic
          | step r bail e s' ↦ next_pod k version image now later ws r bail e s'
        ])
    unfolding next_pod
    next_pod-Turn run ws s panic p = tt
    next_pod-Turn run ws s (step r true e s') p =
        still-Turn run r ws true e s s' (manage_queue-state run r ws true e s s' p)
    next_pod-Turn run ws s (step r false (some e) s') p =
        still-Turn run r ws false (some e) s s' (manage_queue-state run r ws false (some e) s s' p)
    next_pod-Turn run ws s (step r false none s') p =
        let (same, well, still, turn) = manage_queue-proceeds k.conditions now later run ws s p in
        rw (same, still) (Adds-Turn run ws s _ turn (manage_pod-Adds run ws s))

    pub process_chain-Turn :
        (run : Run) (ws : Workspace) (s : k.State)
        → Turn run ws s (process_chain k version image now later run ws s)
    unfolding process_chain
    process_chain-Turn run ws s = next_pod-Turn run ws s _ refl
