-- ===== src/Tests/Pipeline.antt =====
-- The theorems on the pipeline, with a forged form.
use marketplace.Base.{
  ℕ, ◌+◌, ◌≡◌, refl, none, some, false, true, [], ◌∷◌, ◌++◌, Bytes, inl, ok, same_bytes,
}
use marketplace.Csrf as Csrf
use marketplace.Pipeline.{Request, Context, Handler, Pipeline, no_headers, wrap, is_one_of}
use marketplace.Origin.Spoofing.{with_written}
use marketplace.Pipeline.Guarded.{wrap-forged, wrap-written}
use marketplace.Tests.Origin.{some_addresses, forged, appended, appended-long}

-- A limiter that counts what it is asked, and a handler that counts what it serves.
abbrev a_pipeline : Pipeline ℕ
a_pipeline = record {
  indexable = false;
  hops = 2;
  general = some (λ key n. (ok none, n + 1));
  callbacks = [];
  addresses = some_addresses;
  primitives = record { hmac_sha256 = λ k m. m; encode = λ text. text; decode = λ text. some text };
  nonce = b'n' ∷ [];
  fresh = [];
  seed = [];
}

abbrev serves : ℕ → Handler ℕ
serves k c r h n = (record { status = 200; headers = h }, n + k)

abbrev a_form : Request
a_form = record {
  path = b'/' ∷ [];
  remote = [];
  forwarded = [];
  https = true;
  fields = record { method = Csrf.post; cookie = none; header = []; form_field = none };
}

abbrev anonymous : Context
anonymous = record { ip = none; nonce = none; token = none }

no_token : (front back : Bytes) → [] ≡ front ++ b'.' ∷ back → ⊥
no_token [] back e = cc
no_token (c ∷ front) back e = cc

wrap-forged_example :
    wrap a_pipeline (serves 1) anonymous a_form no_headers 0
    ≡ wrap a_pipeline (serves 2) anonymous a_form no_headers 0
unfolding is_one_of same_bytes
wrap-forged_example =
    wrap-forged a_pipeline (serves 1) (serves 2) anonymous a_form no_headers 0 refl (inl refl)
      λ (front, back, seed, e, _, _, _). no_token front back e

wrap-written_example :
    wrap a_pipeline
      (serves 1)
      anonymous
      (record a_form { forwarded = with_written (forged ∷ []) forged appended [] })
      no_headers
      0
    ≡ wrap a_pipeline
        (serves 1)
        anonymous
        (record a_form { forwarded = appended ∷ [] })
        no_headers
        0
wrap-written_example =
    wrap-written a_pipeline (serves 1) anonymous a_form no_headers 0 (forged ∷ []) forged appended
      [] (λ x y c h s. refl) appended-long
