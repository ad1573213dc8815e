-- ===== src/Telemetry/State/Kept.antt =====
-- backend/app/telemetry/services.py: what `_update_current_state` leaves alone.
use carhibou.Prelude.{◌≡◌, refl, Option, none, some, String, List, [], ◌∷◌}
use carhibou.Prelude.Float.{Float}
use carhibou.Prelude.Time.{Instant}
use carhibou.Telemetry.Store.{Telemetry, VehicleState}
use carhibou.Telemetry.State.{Db, put_state, update_current_state}

module _ {F : Type 0} ⦃ops : Float F⦄ where
  telemetry-put_state :
      (vehicle_id : String) (o : Option (VehicleState F)) (db : Db F)
      → (put_state vehicle_id o db).telemetry ≡ db.telemetry
  telemetry-put_state vehicle_id none db = refl
  telemetry-put_state vehicle_id (some state) db = refl

  pub telemetry-update_current_state :
      (vehicle_id : String) (accepted : List (Telemetry F)) (now : Instant) (db : Db F)
      → (update_current_state vehicle_id accepted now db).telemetry ≡ db.telemetry
  unfolding update_current_state
  telemetry-update_current_state vehicle_id [] now db = refl
  telemetry-update_current_state vehicle_id (t ∷ accepted) now db =
      telemetry-put_state vehicle_id _ db
