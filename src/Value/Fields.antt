-- ===== src/Value/Fields.antt =====
-- internal/car/car.go: reads behind writes of an event.
use piiat_mem.Prelude.{String, ◌≡◌, refl, arith, if◌then◌else◌}
use piiat_mem.Prelude.Keys.{str_eq, str_eq_iff}
use piiat_mem.Value.{Value, Event, empty, field, get, put}

pub get-put :
    (k j : String) (v : Value) (ev : Event)
    → get k (put j v ev) ≡ (if str_eq j k then v else get k ev)
unfolding get put
get-put k j v empty = refl
get-put k j v (field i w ev) =
    ground (arith, get-put k j v ev, str_eq_iff i j, str_eq_iff j k, str_eq_iff i k)
