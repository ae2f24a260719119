-- ===== src/Json.antt =====
-- JSON objects as encoding/json makes and reads them, of the kinds of values that the requests of the
-- controller to the node agent hold.
use kubernetes_controller.Base.{String, Bool, false, List, [], ◌∷◌, ◌==◌, if◌then◌else◌}
use kubernetes_controller.Base.Dict.{Dict}
use kubernetes_controller.Messaging.{Result, ok, err}

pub data Json : Type 0 where
  text : String → Json
  flag : Bool → Json
  -- an array of texts; a `null` in it counts as the empty text
  texts : List String → Json
  null : Json
  -- a number, an object or another array
  other : Json

abbrev pub JsonObject : Type 0
JsonObject = Dict Json

-- `null` leaves a field as it is, a value of another type is an error, which the later values keep.
abbrev to_text : Json → Result String → Result String
to_text (text s) (ok _) = ok s
to_text null (ok s) = ok s
to_text _ (err e) = err e
to_text _ _ = err "json: cannot unmarshal into a field of type string"

abbrev to_flag : Json → Result Bool → Result Bool
to_flag (flag b) (ok _) = ok b
to_flag null (ok b) = ok b
to_flag _ (err e) = err e
to_flag _ _ = err "json: cannot unmarshal into a field of type bool"

abbrev to_texts : Json → Result (List String) → Result (List String)
to_texts (texts xs) (ok _) = ok xs
to_texts null (ok _) = ok []
to_texts _ (err e) = err e
to_texts _ _ = err "json: cannot unmarshal into a field of type []string"

module _ {A : Type 0} (store : Json → Result A → Result A) (key : String) where
  -- The members are read in order, so that the last one of the key counts.
  unfoldable pub read_members : JsonObject → Result A → Result A
  read_members [] r = r
  read_members ((k, v) ∷ o) r = read_members o (if k == key then store v r else r)

-- A field of a struct that is decoded from the object: a missing key gives the zero value.
unfoldable pub text_field : String → JsonObject → Result String
unfolding read_members
text_field key o = read_members to_text key o (ok "")

unfoldable pub flag_field : String → JsonObject → Result Bool
unfolding read_members
flag_field key o = read_members to_flag key o (ok false)

unfoldable pub texts_field : String → JsonObject → Result (List String)
unfolding read_members
texts_field key o = read_members to_texts key o (ok [])
