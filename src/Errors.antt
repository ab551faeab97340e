-- ===== src/Errors.antt =====
-- The exception classes that the modelled functions raise (src/penge/tax, src/penge/sim/routing.py and the decimal
-- module's signals). Messages are not modelled.

pub data Exn : Type 0 where
  invalid_operation division_by_zero : Exn
  validation_error : Exn
  lot_error lager_error pal_error ask_error vorab_error folkepension_error topskat_error
        routing_error :
      Exn
