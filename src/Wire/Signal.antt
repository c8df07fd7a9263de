-- ===== src/Wire/Signal.antt =====
-- The Signal message as the dict that apps/persist/app.py and apps/portal-api/app.py keep it in: a
-- key that the dict lacks is `none`.
use exec_relay.Base.{
  ℕ, ◌≡◌, Bool, true, false, Option, none, some, List, [], map, ◌==◌, if◌then◌else◌, All,
}
use exec_relay.Base.Text.{Text, truthy}
use exec_relay.Wire.Utf8.{IsScalar}

pub record Param : Type 0 where
  pub key : Option Text
  pub value : Option Text

pub record Signal : Type 0 where
  pub trace_id : Option Text
  pub license_id : Option Text
  pub instance_id : Option Text
  pub command : Option Text
  pub raw_command : Option Text
  pub symbol : Option Text
  pub ingress_region : Option Text
  pub body_sha256 : Option Text
  pub received_unix_nano : Option ℕ
  pub params : List Param

-- sig = {"params": []}
abbrev pub empty : Signal
empty = record {
  trace_id = none;
  license_id = none;
  instance_id = none;
  command = none;
  raw_command = none;
  symbol = none;
  ingress_region = none;
  body_sha256 = none;
  received_unix_nano = none;
  params = [];
}

abbrev pub empty_param : Param
empty_param = record { key = none; value = none }

pub data StringField : Type 0 where
  trace_id license_id instance_id command raw_command symbol ingress_region body_sha256 :
      StringField

-- The dict `string_fields`, by field number.
unfoldable pub string_field : ℕ → Option StringField
string_field n =
    if n == 1
    then some StringField.trace_id
    else if n == 2
    then some StringField.license_id
    else if n == 3
    then some StringField.instance_id
    else if n == 4
    then some StringField.command
    else if n == 5
    then some StringField.raw_command
    else if n == 6
    then some StringField.symbol
    else if n == 7
    then some StringField.ingress_region
    else if n == 9
    then some StringField.body_sha256
    else none

-- sig[string_fields[field_num]] = t
unfoldable pub set_field : StringField → Text → Signal → Signal
set_field StringField.trace_id t s = record s { trace_id = some t }
set_field StringField.license_id t s = record s { license_id = some t }
set_field StringField.instance_id t s = record s { instance_id = some t }
set_field StringField.command t s = record s { command = some t }
set_field StringField.raw_command t s = record s { raw_command = some t }
set_field StringField.symbol t s = record s { symbol = some t }
set_field StringField.ingress_region t s = record s { ingress_region = some t }
set_field StringField.body_sha256 t s = record s { body_sha256 = some t }

-- param["key"] = v or param["value"] = v, by the field number.
unfoldable pub set_param : ℕ → Text → Param → Param
set_param fn v param =
    if fn == 1
    then record param { key = some v }
    else if fn == 2
    then record param { value = some v }
    else param

-- sig["received_unix_nano"] = val, for field 8.
unfoldable pub set_number : ℕ → ℕ → Signal → Signal
set_number field_num val sig =
    if field_num == 8 then record sig { received_unix_nano = some val } else sig

-- The truth value of sig.get(name): there, and not empty.
unfoldable pub present : Option Text → Bool
present none = false
present (some t) = truthy t

abbrev pub get_or : {A : Type 0} → Option A → A → A
get_or none d = d
get_or (some a) d = a

-- What a message can carry: an absent key and an empty text read the same.
abbrev pub normal_text : Option Text → Option Text
normal_text none = none
normal_text (some t) = if present (some t) then some t else none

abbrev pub normal_nano : Option ℕ → Option ℕ
normal_nano none = none
normal_nano (some n) = if n == 0 then none else some n

abbrev pub normal_param : Param → Param
normal_param p = record { key = some (get_or p.key []); value = some (get_or p.value []) }

abbrev pub normal : Signal → Signal
normal s = record {
  trace_id = normal_text s.trace_id;
  license_id = normal_text s.license_id;
  instance_id = normal_text s.instance_id;
  command = normal_text s.command;
  raw_command = normal_text s.raw_command;
  symbol = normal_text s.symbol;
  ingress_region = normal_text s.ingress_region;
  body_sha256 = normal_text s.body_sha256;
  received_unix_nano = normal_nano s.received_unix_nano;
  params = map normal_param s.params;
}

abbrev pub IsWritable : Option Text → Type 0
IsWritable none = Unit {0}
IsWritable (some t) = All IsScalar t

pub record IsWritableParam (p : Param) : Type 0 where
  pub key : IsWritable p.key
  pub value : IsWritable p.value

-- Every text of the message can be written as UTF-8.
pub record IsWritableSignal (s : Signal) : Type 0 where
  pub trace_id : IsWritable s.trace_id
  pub license_id : IsWritable s.license_id
  pub instance_id : IsWritable s.instance_id
  pub command : IsWritable s.command
  pub raw_command : IsWritable s.raw_command
  pub symbol : IsWritable s.symbol
  pub ingress_region : IsWritable s.ingress_region
  pub body_sha256 : IsWritable s.body_sha256
  pub params : All IsWritableParam s.params

-- `_REQUIRED_SIGNAL_FIELDS` are all there and not empty.
pub record IsComplete (s : Signal) : Type 0 where
  pub trace_id : present s.trace_id ≡ true
  pub license_id : present s.license_id ≡ true
  pub command : present s.command ≡ true
  pub symbol : present s.symbol ≡ true
