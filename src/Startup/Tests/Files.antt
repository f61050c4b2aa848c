-- ===== src/Startup/Tests/Files.antt =====
-- Configuration files, with a small type of values in the place of jsoncpp.
use codec_single_thread.Startup.{same_text, codes, joined, config_error, thrown, thread_of}
use codec_single_thread.Startup.Reading.{Json, run_main, config_of}
use codec_single_thread.Startup.Starting.{run_main_lem, run_main-Refused, run_main-missing}
use codec_single_thread.Startup.Tests.{upload, download, upload-IsGood, download-IsGood}
use codec_single_thread.Base.{
  ℕ, ◌≡◌, refl, Bool, true, false, List, [], ◌∷◌, ◌++◌, Option, some, none, map, if◌then◌else◌,
}

mutual
  data Value : Type 0 where
    null : Value
    flag : Bool → Value
    number : ℕ → Value
    text : List ℕ → Value
    array : Items → Value
    object : Fields → Value

  data Items : Type 0 where
    nil : Items
    cons : Value → Items → Items

  data Fields : Type 0 where
    end : Fields
    field : List ℕ → Value → Fields → Fields

look_up : List ℕ → Fields → Value
unfolding same_text
look_up key end = null
look_up key (field k v fs) = if same_text key k then v else look_up key fs

member : Value → List ℕ → Option Value
unfolding look_up
member null key = some null
member (object fs) key = some (look_up key fs)
member _ key = none

items : Items → List Value
items nil = []
items (cons v vs) = v ∷ items vs

is_array : Value → Bool
is_array (array vs) = true
is_array _ = false

elements : Value → List Value
unfolding items
elements (array vs) = items vs
elements _ = []

as_string : Value → Option (List ℕ)
as_string null = some []
as_string (text s) = some s
as_string _ = none

as_uint : Value → Option ℕ
as_uint null = some 0
as_uint (number n) = some n
as_uint _ = none

as_bool : Value → Option Bool
as_bool null = some false
as_bool (flag b) = some b
as_bool _ = none

entry : List ℕ → List ℕ → Value → Value
entry src forward port = object (
    field (codes "src_codec") (text src) (
      field (codes "dst_codec") (text (codes "PCMU")) (
        field (codes "forward") (text forward) (
          field (codes "recv_port") port (
            field (codes "ip") (text (codes "10.0.0.1")) (
              field (codes "send_port") (number 5000)
                (field (codes "send_sc") (flag true) end)))))))

up_entry : Value
unfolding entry
up_entry = entry (codes "Codec2") (codes "To4G") (number 65537)

down_entry : Value
unfolding entry
down_entry = entry (codes "AMR") (codes "FROM4G") (number 65537)

-- A port in quotes.
quoted : Value
unfolding entry
quoted = entry (codes "AMR") (codes "FROM4G") (text (codes "5001"))

-- The files "1" and "2"; any other text does not parse.
root : List ℕ → Bool × Value
unfolding up_entry down_entry quoted same_text
root s =
    let two : Items = cons down_entry nil in
    if same_text s (codes "1")
    then (false, object (field (codes "session") (array (cons up_entry two)) end))
    else if same_text s (codes "2")
    then (false, object (field (codes "session") (array (cons up_entry (cons quoted two))) end))
    else (true, null)

abbrev json : Json
json = record {
  Value = Value;
  null = null;
  member = member;
  is_array = is_array;
  elements = elements;
  as_string = as_string;
  as_uint = as_uint;
  as_bool = as_bool;
  parse = λ v s. root s;
}

read_both :
    map (config_of json) (elements (array (cons up_entry (cons down_entry nil))))
    ≡ map some (upload ∷ download ∷ [])
unfolding config_of elements member up_entry down_entry as_string as_uint as_bool
read_both = refl

run_main_lem_example :
    run_main json (some (codes "1")) ≡ (joined, map thread_of (upload ∷ download ∷ []))
unfolding root member is_array
run_main_lem_example =
    run_main_lem json (codes "1") (upload ∷ download ∷ []) (_, refl, refl, read_both)
      (upload-IsGood, (download-IsGood, tt))

read_three :
    map (config_of json) (elements (array (cons up_entry (cons quoted (cons down_entry nil)))))
    ≡ map some (upload ∷ []) ++ (none ∷ some download ∷ [])
unfolding config_of elements member up_entry down_entry quoted as_string as_uint as_bool
read_three = refl

run_main-Refused_example : run_main json (some (codes "2")) ≡ (thrown, map thread_of (upload ∷ []))
unfolding root member is_array
run_main-Refused_example =
    run_main-Refused json (codes "2") (upload ∷ []) none (some download ∷ []) thrown
      (_, refl, refl, read_three) (upload-IsGood, tt) refl

not_parsed : run_main json (some (codes "{")) ≡ (config_error, [])
unfolding run_main root member is_array
not_parsed = refl

missing : run_main json none ≡ (config_error, [])
unfolding member is_array
missing = run_main-missing json refl refl
