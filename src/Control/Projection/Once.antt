-- ===== src/Control/Projection/Once.antt =====
-- packages/postgres-adapter/src/projection-store.ts: a method around its receipt.
use private_cloud_control_pl.Prelude.{
  ◌≡◌, ℕ, ◌==◌, String, str_eq_iff, Bool, true, false, List, any, refl, sym, ◌∙◌, ap, subst, inl,
  inr, Bool-cases, arith,
}
use private_cloud_control_pl.Store.Rows.{Delivery}
use private_cloud_control_pl.Control.Rows.{EventReceipt, ControlDatabase}
use private_cloud_control_pl.Control.Transaction.{Tried, done, threw, Ensures}
use private_cloud_control_pl.Control.Projection.Apply.{
  Applied, is_receipt, insert_event_receipt, as_applied, once,
}

-- What a change ensures, and the database before it, hold after the method.
pub once-Ensures :
    (P : ControlDatabase → Type 0) (change : ControlDatabase → Tried ControlDatabase)
    (db : ControlDatabase) (receipt : Bool × List EventReceipt)
    → P db
    → ((receipts : List EventReceipt) → Ensures P (change (record db { receipts = receipts })))
    → (after : ControlDatabase) (result : Applied) → once change db receipt ≡ done (result, after)
    → P after
once-Ensures P change db (false, receipts) before kept after result e =
    let same : db ≡ after = cc in subst P same before
once-Ensures P change db (true, receipts) before kept after result e =
    by_change (change (record db { receipts = receipts })) (kept receipts) e
  where
    by_change :
        (m : Tried ControlDatabase) → Ensures P m → as_applied m ≡ done (result, after) → P after
    by_change (done d) h e = let same : d ≡ after = cc in subst P same h
    by_change (threw x) h e = absurd (cc)

-- A receipt that is inserted, or was there, is there.
pub insert_event_receipt-receipts :
    (consumer_name : String) (event_id : ℕ) (delivery : Delivery) (now : ℕ)
    (receipts : List EventReceipt)
    → any
        (is_receipt consumer_name event_id delivery.replay_generation)
        (insert_event_receipt consumer_name event_id delivery now receipts).1
      ≡ true
unfolding insert_event_receipt
insert_event_receipt-receipts consumer_name event_id delivery now receipts =
    elim (Bool-cases
      (any (is_receipt consumer_name event_id delivery.replay_generation) receipts)) [
        | inl there ↦ rw (there, there) refl
        | inr fresh ↦
            rw
              (
                fresh,
                (str_eq_iff consumer_name consumer_name).1 refl,
                same event_id,
                same delivery.replay_generation,
              )
              refl
      ]
  where
    same : (n : ℕ) → (n == n) ≡ true
    same n = ground arith

duplicate-receipts :
    (consumer_name : String) (event_id : ℕ) (delivery : Delivery) (now : ℕ)
    (receipts : List EventReceipt)
    → (insert_event_receipt consumer_name event_id delivery now receipts).0 ≡ false
    → (insert_event_receipt consumer_name event_id delivery now receipts).1 ≡ receipts
unfolding insert_event_receipt
duplicate-receipts consumer_name event_id delivery now receipts e =
    elim (Bool-cases
      (any (is_receipt consumer_name event_id delivery.replay_generation) receipts)) [
        | inl there ↦ rw there refl
        | inr fresh ↦ let off : true ≡ false = rw fresh at e in cc
      ]

-- A method leaves the receipts as its receipt made them.
once-receipts :
    (change : ControlDatabase → Tried ControlDatabase) (db after : ControlDatabase)
    (result : Applied) (b : Bool) (receipts : List EventReceipt)
    → ((d : ControlDatabase) → Ensures (λ d'. d'.receipts ≡ d.receipts) (change d))
    → (b ≡ false → receipts ≡ db.receipts)
    → once change db (b, receipts) ≡ done (result, after)
    → after.receipts ≡ receipts
once-receipts change db after result false receipts keeps stays e =
    let kept = stays refl in
    let same : db ≡ after = cc in ap (λ (d : ControlDatabase). d.receipts) (sym same) ∙ sym kept
once-receipts change db after result true receipts keeps stays e =
    by_change (change (record db { receipts = receipts }))
      (keeps (record db { receipts = receipts })) e
  where
    by_change :
        (m : Tried ControlDatabase)
        → Ensures (λ d'. d'.receipts ≡ receipts) m
        → as_applied m ≡ done (result, after)
        → after.receipts ≡ receipts
    by_change (done d) h e =
        let same : d ≡ after = cc in ap (λ (x : ControlDatabase). x.receipts) (sym same) ∙ h
    by_change (threw x) h e = absurd (cc)

-- A method whose change leaves the receipts alone is done once for a consumer, an event and a replay
-- generation: after it commits, a delivery of the same changes nothing.
pub once-duplicate :
    (change again : ControlDatabase → Tried ControlDatabase) (db after : ControlDatabase)
    (result : Applied) (consumer_name : String) (event_id : ℕ) (delivery second : Delivery)
    (now later : ℕ)
    → ((d : ControlDatabase) → Ensures (λ d'. d'.receipts ≡ d.receipts) (change d))
    → second.replay_generation ≡ delivery.replay_generation
    → once change db (insert_event_receipt consumer_name event_id delivery now db.receipts)
      ≡ done (result, after)
    → once again after (insert_event_receipt consumer_name event_id second later after.receipts)
      ≡ done (Applied.duplicate, after)
unfolding insert_event_receipt
once-duplicate change again db after result consumer_name event_id delivery second now later keeps
      same e =
    let inserted = insert_event_receipt consumer_name event_id delivery now db.receipts in
    let kept =
      once-receipts change db after result inserted.0 inserted.1 keeps
        (duplicate-receipts consumer_name event_id delivery now db.receipts) e in
    let there : any (is_receipt consumer_name event_id second.replay_generation) after.receipts
        ≡ true =
      rw (same, kept)
        (insert_event_receipt-receipts consumer_name event_id delivery now db.receipts) in
    rw there refl
