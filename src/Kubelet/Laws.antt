-- ===== src/Kubelet/Laws.antt =====
-- What `Checkpoint` of the kubelet client asks for and which answers it accepts.
use kubernetes_controller.Base.{
  String, ◌≡◌, ◌≢◌, refl, eq_iff, ◌↔◌, true, false, inl, inr, none, List, [], ◌∷◌, arith,
  Option-cases,
}
use kubernetes_controller.Messaging.{ok, Result-cases}
use kubernetes_controller.Json.{JsonObject}
use kubernetes_controller.Kubelet.{
  Rest, RestResult, checkpoint, read_result, checkpoint_response, is_incomplete,
}

module _ {W : Type 0} (R : Rest W) where
  -- The answer is a success with a body that names these archives.
  pub record Answers (r : RestResult) (items : List String) : Type 0 where
    pub no_error : r.error ≡ none
    pub status : r.status_code ≡ 200
    pub body : String
    pub readable : r.raw ≡ ok body
    pub object : JsonObject
    pub parsed : R.parse body ≡ ok object
    pub decoded : checkpoint_response object ≡ ok items

  accepted-Answers :
      (node namespace pod container : String) (r : RestResult) (items : List String)
      → read_result R node namespace pod container r ≡ ok items
      → Answers r items
  unfolding read_result
  accepted-Answers node ns pod c r items h = elim (Option-cases r.error) [
    | inr (e, failed) ↦ absurd (ground (arith, failed))
    | inl fine ↦ elim (Result-cases r.raw) [
      | inr (e, raw) ↦ absurd (ground (arith, fine, raw))
      | inl (body, raw) ↦ elim (Result-cases (R.parse body)) [
        | inr (e, parse) ↦ absurd (ground (arith, fine, raw, parse))
        | inl (o, parse) ↦ record {
          no_error = fine;
          status = ground (arith, fine, raw, parse);
          body = body;
          readable = raw;
          object = o;
          parsed = parse;
          decoded = ground (arith, fine, raw, parse);
        }
      ]
    ]
  ]

  Answers-accepted :
      (node namespace pod container : String) (r : RestResult) (items : List String)
      → Answers r items
      → read_result R node namespace pod container r ≡ ok items
  unfolding read_result
  Answers-accepted node ns pod c r items a =
      ground (arith, a.no_error, a.status, a.readable, a.parsed, a.decoded)

  is_complete :
      (node namespace pod container : String)
      → node ≢ ""
      → namespace ≢ ""
      → pod ≢ ""
      → container ≢ ""
      → is_incomplete node namespace pod container ≡ false
  unfolding is_incomplete
  is_complete node ns pod c h1 h2 h3 h4 =
      ground (arith, eq_iff node "", eq_iff ns "", eq_iff pod "", eq_iff c "")

  abbrev pub request : String → String → String → String → W → RestResult × W
  request node namespace pod container =
      R.post "nodes" node ("proxy" ∷ "checkpoint" ∷ namespace ∷ pod ∷ container ∷ [])

  -- With all four names given, `Checkpoint` makes one request, and returns archives exactly when the
  -- answer has no error, the status 200, and a body that can be read and decodes to those archives.
  pub checkpoint_iff :
      (node namespace pod container : String) (w : W) (items : List String)
      → node ≢ ""
      → namespace ≢ ""
      → pod ≢ ""
      → container ≢ ""
      → let (r, w') = request node namespace pod container w in
        ((checkpoint R node namespace pod container w).1 ≡ w')
        × (((checkpoint R node namespace pod container w).0 ≡ ok items) ↔ Answers r items)
  unfolding checkpoint
  checkpoint_iff node ns pod c w items h1 h2 h3 h4 =
      rw (is_complete node ns pod c h1 h2 h3 h4)
        (refl, (accepted-Answers node ns pod c _ items, Answers-accepted node ns pod c _ items))

  -- Without one of the names it makes no request and returns an error.
  checkpoint_refuses :
      (node namespace pod container : String) (w : W) (items : List String)
      → is_incomplete node namespace pod container ≡ true
      → ((checkpoint R node namespace pod container w).1 ≡ w)
        × ((checkpoint R node namespace pod container w).0 ≢ ok items)
  unfolding checkpoint
  checkpoint_refuses node ns pod c w items h = rw h (refl, λ e. cc)
