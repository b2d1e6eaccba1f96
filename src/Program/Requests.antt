-- ===== src/Program/Requests.antt =====
-- src/main.cpp and src/api/rest_api.cpp together: requests that change the program.
use mcp2515_rpi.Base.{ℕ, ◌≡◌, refl, ap, ◌∙◌, none, some, List, [], arith}
use mcp2515_rpi.Base.Texts.{text}
use mcp2515_rpi.Manufacturer.{Ecu}
use mcp2515_rpi.Manufacturer.Profiles.{FloatOps}
use mcp2515_rpi.Api.Rest.{Handler, respond, serve, split_at, read_params}
use mcp2515_rpi.Api.Rest.Laws.{IsWord, request, serve-respond}
use mcp2515_rpi.Program.{App, JsonOps, Reply, failed, route, post_odometer}

post-IsWord : IsWord (text "POST")
post-IsWord = record {
  ink = (refl, (refl, (refl, (refl, tt))));
  no_zero = (refl, (refl, (refl, (refl, tt))));
  long = omega arith;
}

profile-IsWord : IsWord (text "/profile")
profile-IsWord = record {
  ink = (refl, (refl, (refl, (refl, (refl, (refl, (refl, (refl, tt))))))));
  no_zero = (refl, (refl, (refl, (refl, (refl, (refl, (refl, (refl, tt))))))));
  long = omega arith;
}

odometer-IsWord : IsWord (text "/odometer")
odometer-IsWord = record {
  ink = (refl, (refl, (refl, (refl, (refl, (refl, (refl, (refl, (refl, tt)))))))));
  no_zero = (refl, (refl, (refl, (refl, (refl, (refl, (refl, (refl, (refl, tt)))))))));
  long = omega arith;
}

module _ {F J : Type 0} where
  -- The handler as the REST server calls it.
  unfoldable pub rest_handler : FloatOps F → JsonOps F J → (Reply F → List ℕ) → Handler (App F)
  unfolding route
  rest_handler ops json dump a path method body params =
      let r = route ops json a path method body params in (r.0, dump r.1)

  empty_profile :
      (ops : FloatOps F) (json : JsonOps F J) (a : App F)
      → json.parse [] ≡ none
      → route ops json a (text "/profile") (text "POST") [] [] ≡ (a, failed)
  unfolding route
  empty_profile ops json a h = rw (h) refl

  empty_odometer :
      (ops : FloatOps F) (json : JsonOps F J) (a : App F) (e : Ecu F)
      → json.parse [] ≡ none
      → a.current ≡ some e
      → route ops json a (text "/odometer") (text "POST") [] [] ≡ (a, failed)
  unfolding route
  empty_odometer ops json a e h current =
      ap (λ c. post_odometer ops json a c (json.parse [])) current ∙ rw (h) refl

  -- Where the JSON library refuses the empty text, as it does, a client cannot select a profile or set the odometer
  -- through the server: whatever headers and body follow the line of POST /profile or POST /odometer, the program does
  -- not change and the answer is the text of the failure.
  pub posts_fail :
      (ops : FloatOps F) (json : JsonOps F J) (dump : Reply F → List ℕ) (a : App F) (e : Ecu F)
      (version rest : List ℕ)
      → json.parse [] ≡ none
      → a.current ≡ some e
      → IsWord version
      → (serve
            (some (rest_handler ops json dump))
            a
            (request (text "POST") (text "/profile") version rest)
          ≡ some (a, respond (dump failed)))
        × (serve
              (some (rest_handler ops json dump))
              a
              (request (text "POST") (text "/odometer") version rest)
            ≡ some (a, respond (dump failed)))
  unfolding rest_handler split_at read_params
  posts_fail ops json dump a e version rest h current word = (
    serve-respond (rest_handler ops json dump) a (text "POST") (text "/profile") version rest
          post-IsWord profile-IsWord word refl
        ∙ ap (λ (r : App F × Reply F). some (r.0, respond (dump r.1))) (empty_profile ops json a h),
    serve-respond (rest_handler ops json dump) a (text "POST") (text "/odometer") version rest
          post-IsWord odometer-IsWord word refl
        ∙ ap (λ (r : App F × Reply F). some (r.0, respond (dump r.1)))
            (empty_odometer ops json a e h current),
  )
