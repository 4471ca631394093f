-- ===== src/Json.antt =====
-- encoding/json as the program uses it: for each type a codec between its values and texts. The
-- codecs are arguments of the definitions that use them.
use caravel.Prelude.{◌≡◌, Result, ok}
use caravel.Prelude.Text.{Text}

-- json.Marshal and json.Unmarshal at one type. Unmarshal starts from the zero value.
pub record Codec (A : Type 0) : Type 0 where
  pub marshal : A → Result Text
  pub unmarshal : Text → Result A

-- What a value is marshalled to, unmarshals to the value.
pub record RoundTrips {A : Type 0} (c : Codec A) : Type 0 where
  pub unmarshal-marshal : (a : A) (t : Text) → c.marshal a ≡ ok t → c.unmarshal t ≡ ok a
