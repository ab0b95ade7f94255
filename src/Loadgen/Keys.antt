-- ===== src/Loadgen/Keys.antt =====
-- backend/loadgen/app.py: the idempotency keys of the requests.
use workato_take_home.Prelude.{◌≡◌, refl, Text, text, [], ◌∷◌, ◌++◌, length, arith}
use workato_take_home.Worker.Decimal.{decimal-injective}
use workato_take_home.Loadgen.Controller.{Send, idempotency_key}

-- Texts with prefixes of one length.
++-cancel :
    (us vs cs ds : Text) → length us ≡ length vs → us ++ cs ≡ vs ++ ds → (us ≡ vs) × (cs ≡ ds)
++-cancel [] [] cs ds n h = (refl, h)
++-cancel [] (v ∷ vs) cs ds n h = absurd (omega (arith, n))
++-cancel (u ∷ us) [] cs ds n h = absurd (omega (arith, n))
++-cancel (u ∷ us) (v ∷ vs) cs ds n h =
    let tails : us ++ cs ≡ vs ++ ds = cc in
    let (same, rest) = ++-cancel us vs cs ds (omega (arith, n)) tails in (cc, rest)

-- Two requests whose runs have identifiers of one length, as those of `uuid4().hex` are, have the same key only if they
-- have the same run identifier and the same sequence number.
pub idempotency_key-injective :
    (s t : Send)
    → length s.run_config.run_id ≡ length t.run_config.run_id
    → idempotency_key s ≡ idempotency_key t
    → (s.run_config.run_id ≡ t.run_config.run_id) × (s.sequence ≡ t.sequence)
unfolding idempotency_key
idempotency_key-injective s t n h =
    let (_, ids) = ++-cancel (text "loadgen-") (text "loadgen-") _ _ refl h in
    let (run, numbers) = ++-cancel s.run_config.run_id t.run_config.run_id _ _ n ids in
    let (_, digits) = ++-cancel (text "-") (text "-") _ _ refl numbers in
    (run, decimal-injective s.sequence t.sequence digits)
