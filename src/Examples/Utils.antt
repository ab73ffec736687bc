-- ===== src/Examples/Utils.antt =====
-- Plugin ids at the gate.
use veyron.Prelude.{text_eq, nat_eq}
