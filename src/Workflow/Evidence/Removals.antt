-- ===== src/Workflow/Evidence/Removals.antt =====
-- The evidence of a purge, of its submission, and of the snapshot actions.
use private_cloud_control_pl.Prelude.{
  ◌≡◌, ◌≢◌, Option, none, some, List, String, true, inl, inr, arith, Bool-cases, sym, ◌∙◌,
}
use private_cloud_control_pl.Contracts.Events.{PurgeRequested}
use private_cloud_control_pl.Contracts.Provider.{Provider, InstanceObservation}
use private_cloud_control_pl.Workflow.Stage.{WorkflowStage}
use private_cloud_control_pl.Workflow.Step.{Claimed, StoreCall}
use private_cloud_control_pl.Workflow.Step.Rules.{Returns, Returns-mono}
use private_cloud_control_pl.Workflow.Step.Shapes.{Returns-observation}
use private_cloud_control_pl.Workflow.Engine.{
  Env, required_resource, progress, fail, manual_review, succeed,
}
use private_cloud_control_pl.Workflow.Outcome.{poll_task}
use private_cloud_control_pl.Workflow.Transitions.Results.{Lands, poll_task-Lands}
use private_cloud_control_pl.Workflow.Snapshot.{
  SnapshotAction, SnapshotPayload, snapshot_present, satisfied, snapshot_traits, observed_snapshot,
  execute_snapshot, observe_step,
}
use private_cloud_control_pl.Workflow.Purge.{
  purge_traits, verified_ownership, observed_absence, execute_purge,
}
use private_cloud_control_pl.Workflow.Evidence.{
  Reflects, Observed, Listed, Owned, Absent, IsSuccess, IsPurgeSubmission,
}
use private_cloud_control_pl.Workflow.Evidence.Observations.{
  mutation-Proves, poll_task-Proves, observation-supports, listing-Proves, observed_absence-Absent,
  verified_ownership-Absent,
}

pub execute_purge-Evidence :
    (env : Env) (provider : Provider) (wf : Claimed PurgeRequested) (s : WorkflowStage)
    → Returns
        (λ call. IsSuccess call → Observed purge_traits env provider wf (Absent))
        (execute_purge env provider wf s).1
unfolding execute_purge progress fail
execute_purge-Evidence env provider wf WorkflowStage.accepted = λ h. absurd h
execute_purge-Evidence env provider wf WorkflowStage.verifying_purge =
    observation-supports purge_traits env provider wf IsSuccess "verify-purge" (Absent)
      (verified_ownership env wf) (verified_ownership-Absent env wf)
execute_purge-Evidence env provider wf WorkflowStage.submitting_purge =
    mutation-Proves purge_traits env provider wf (Observed purge_traits env provider wf (Absent))
      (required_resource purge_traits env wf) _ WorkflowStage.polling_purge
      WorkflowStage.observing_purge
execute_purge-Evidence env provider wf WorkflowStage.polling_purge =
    poll_task-Proves purge_traits env provider wf (Observed purge_traits env provider wf (Absent))
      WorkflowStage.observing_purge
execute_purge-Evidence env provider wf WorkflowStage.observing_purge =
    observation-supports purge_traits env provider wf IsSuccess "observe-purge" (Absent)
      (observed_absence env wf) (observed_absence-Absent env wf)
execute_purge-Evidence env provider wf _ = λ h. cc

satisfied-Reflects :
    (a : SnapshotAction) (d : SnapshotPayload a) (names : List String)
    → satisfied a d names ≡ true
    → Reflects a d names
unfolding satisfied
satisfied-Reflects SnapshotAction.create d names h = h
satisfied-Reflects SnapshotAction.rollback d names h = tt
satisfied-Reflects SnapshotAction.delete d names h =
    ground (arith, Bool-cases (snapshot_present d.provider_snapshot_reference names))

observed_snapshot-Reflects :
    (a : SnapshotAction) (env : Env) (wf : Claimed (SnapshotPayload a)) (r : String)
    (names : List String)
    → IsSuccess (observed_snapshot a env wf r names)
    → Reflects a wf.command.payload names
unfolding observed_snapshot succeed manual_review
observed_snapshot-Reflects a env wf r names h =
    satisfied-Reflects a wf.command.payload names (ground arith)

pub execute_snapshot-Evidence :
    (a : SnapshotAction) (env : Env) (provider : Provider) (wf : Claimed (SnapshotPayload a))
    (s : WorkflowStage)
    → Returns
        (λ call.
          IsSuccess call
          → Listed (snapshot_traits a) env provider wf (Reflects a wf.command.payload))
        (execute_snapshot a env provider wf s).1
unfolding execute_snapshot progress fail
execute_snapshot-Evidence a env provider wf WorkflowStage.accepted = λ h. absurd h
execute_snapshot-Evidence a env provider wf WorkflowStage.submitting_snapshot =
    mutation-Proves (snapshot_traits a) env provider wf
      (Listed (snapshot_traits a) env provider wf (Reflects a wf.command.payload))
      (required_resource (snapshot_traits a) env wf) _ WorkflowStage.polling_snapshot
      WorkflowStage.observing_snapshot
execute_snapshot-Evidence a env provider wf WorkflowStage.polling_snapshot =
    poll_task-Proves (snapshot_traits a) env provider wf
      (Listed (snapshot_traits a) env provider wf (Reflects a wf.command.payload))
      WorkflowStage.observing_snapshot
execute_snapshot-Evidence a env provider wf WorkflowStage.observing_snapshot =
    listing-Proves (snapshot_traits a) env provider wf (observe_step a)
      (Reflects a wf.command.payload) (observed_snapshot a env wf)
      (observed_snapshot-Reflects a env wf)
execute_snapshot-Evidence a env provider wf _ = λ h. cc

-- Where the purge workflow may let the purge be submitted: after an observation of the instance with
-- complete and matching ownership markers.
verified_ownership-Owned :
    (env : Env) (wf : Claimed PurgeRequested) (r : String) (o : Option InstanceObservation)
    → IsPurgeSubmission (verified_ownership env wf r o)
    → Owned (λ o. Unit) o
unfolding verified_ownership succeed manual_review progress
verified_ownership-Owned env wf r none h = h
verified_ownership-Owned env wf r (some o) h = ground arith

observed_absence-IsPurgeSubmission :
    (env : Env) (wf : Claimed PurgeRequested) (r : String) (o : Option InstanceObservation)
    → ¬ IsPurgeSubmission (observed_absence env wf r o)
unfolding observed_absence succeed manual_review
observed_absence-IsPurgeSubmission env wf r o h = ground arith

Lands-IsPurgeSubmission :
    (a b : WorkflowStage) (call : StoreCall)
    → a ≢ WorkflowStage.submitting_purge
    → b ≢ WorkflowStage.submitting_purge
    → Lands a b call
    → ¬ IsPurgeSubmission call
Lands-IsPurgeSubmission a b (StoreCall.checkpoint c) ha hb (inl e) h = ha (sym e ∙ h)
Lands-IsPurgeSubmission a b (StoreCall.checkpoint c) ha hb (inr e) h = hb (sym e ∙ h)
Lands-IsPurgeSubmission a b (StoreCall.complete c) ha hb l h = h
Lands-IsPurgeSubmission a b (StoreCall.dead_letter_workflow d) ha hb l h = h

pub execute_purge-IsPurgeSubmission :
    (env : Env) (provider : Provider) (wf : Claimed PurgeRequested) (s : WorkflowStage)
    → wf.stage ≡ s
    → wf.stage ≢ WorkflowStage.submitting_purge
    → Returns
        (λ call.
          IsPurgeSubmission call
          → (wf.stage ≡ WorkflowStage.verifying_purge)
            × Observed purge_traits env provider wf (Owned (λ o. Unit)))
        (execute_purge env provider wf s).1
unfolding execute_purge progress fail
execute_purge-IsPurgeSubmission env provider wf WorkflowStage.accepted e n = λ h. cc
execute_purge-IsPurgeSubmission env provider wf WorkflowStage.verifying_purge e n =
    Returns-mono
      (λ call. IsPurgeSubmission call → Observed purge_traits env provider wf (Owned (λ o. Unit)))
      (λ call.
        IsPurgeSubmission call
        → (wf.stage ≡ WorkflowStage.verifying_purge)
          × Observed purge_traits env provider wf (Owned (λ o. Unit)))
      (execute_purge env provider wf WorkflowStage.verifying_purge).1 (λ call k h. (e, k h))
      (observation-supports purge_traits env provider wf IsPurgeSubmission "verify-purge"
        (Owned (λ o. Unit)) (verified_ownership env wf) (verified_ownership-Owned env wf))
execute_purge-IsPurgeSubmission env provider wf WorkflowStage.submitting_purge e n = absurd (n e)
execute_purge-IsPurgeSubmission env provider wf WorkflowStage.polling_purge e n =
    Returns-mono (Lands wf.stage WorkflowStage.observing_purge)
      (λ call.
        IsPurgeSubmission call
        → (wf.stage ≡ WorkflowStage.verifying_purge)
          × Observed purge_traits env provider wf (Owned (λ o. Unit)))
      (poll_task purge_traits env provider wf WorkflowStage.observing_purge).1
      (λ call l h.
        absurd
          (Lands-IsPurgeSubmission wf.stage WorkflowStage.observing_purge call n (λ k. cc) l h))
      (poll_task-Lands purge_traits env provider wf WorkflowStage.observing_purge)
execute_purge-IsPurgeSubmission env provider wf WorkflowStage.observing_purge e n =
    Returns-observation
      (λ call.
        IsPurgeSubmission call
        → (wf.stage ≡ WorkflowStage.verifying_purge)
          × Observed purge_traits env provider wf (Owned (λ o. Unit)))
      provider (required_resource purge_traits env wf) _ (observed_absence env wf)
      (λ r o h. absurd (observed_absence-IsPurgeSubmission env wf r o h))
execute_purge-IsPurgeSubmission env provider wf _ e n = λ h. absurd h
