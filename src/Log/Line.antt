-- ===== src/Log/Line.antt =====
-- Every entry of the log of src/logger.c is one line.
use udp_secure_transfer.Prelude.{
  ℕ, zero, suc, ◌+◌, ◌≤◌, ◌≡◌, refl, arith, Bool, true, false, Option,
}
use udp_secure_transfer.Prelude.{none, some, List, [], ◌∷◌, ◌++◌, All, All-append, if◌then◌else◌}
use udp_secure_transfer.Prelude.{codes, Bool-cases, inl, inr, ltb, ◌/◌, ◌%◌}
use udp_secure_transfer.Protocol.Config.Numbers.{digits}
use udp_secure_transfer.Log.{escape_char, escape_text, json_escape, Output, write_string_field}
use udp_secure_transfer.Log.{write_int_field, write_pid_field, write_bool_field, LogInt, unset}
use udp_secure_transfer.Log.{nonnegative, negative, put_field}
use udp_secure_transfer.Log.Entry.{Field, string_field, int_field, bool_field}
use udp_secure_transfer.Log.Entry.{write_fields, Logger, LogEvent, write_security, entry_text}
use udp_secure_transfer.Log.Entry.{
  empty_event, logger_write, security_fields, string_fields, int_fields,
}

-- A byte that is not one of the 32 lowest, to which the line breaks belong; 127 is not excluded.
abbrev pub IsGraphic : ℕ → Type 0
IsGraphic c = 32 ≤ c

abbrev pub IsText : List ℕ → Type 0
IsText text = All IsGraphic text

escape_char-IsText : (c : ℕ) → IsText (escape_char c)
unfolding escape_char
escape_char-IsText c = ground arith

escape_text-IsText : (text : List ℕ) → IsText (escape_text text)
unfolding escape_text
escape_text-IsText [] = tt
escape_text-IsText (c ∷ text) =
    All-append IsGraphic (escape_char c) (escape_text text) (escape_char-IsText c)
      (escape_text-IsText text)

json_escape-IsText : (text : Option (List ℕ)) → IsText (json_escape text)
unfolding json_escape
json_escape-IsText none = omega arith
json_escape-IsText (some text) = (
  omega arith,
  All-append IsGraphic (escape_text text) (34 ∷ []) (escape_text-IsText text) (omega arith, tt),
)

digits-IsText : (fuel n : ℕ) → IsText (digits fuel n)
unfolding digits
digits-IsText zero n = tt
digits-IsText (suc fuel) n = elim (Bool-cases (ltb n 10)) [
  | inl short ↦ rw short (omega arith)
  | inr long ↦ rw long (
      All-append IsGraphic (digits fuel (n / 10)) ((48 + n % 10) ∷ []) (digits-IsText fuel (n / 10))
        (omega arith, tt))
]

comma-IsText : (first : Bool) → IsText (if first then [] else 44 ∷ [])
comma-IsText true = tt
comma-IsText false = (omega arith, tt)

put_field-IsText :
    (o : Output) (key value : List ℕ)
    → IsText o.text
    → IsText value
    → IsText (put_field o key value).text
put_field-IsText o key value before after = All-append IsGraphic o.text _ before (
    All-append IsGraphic (if o.first then [] else 44 ∷ []) _ (comma-IsText o.first) (
      All-append IsGraphic (json_escape (some key)) (58 ∷ value) (json_escape-IsText (some key))
        (omega arith, after)))

write_string_field-IsText :
    (o : Output) (key : List ℕ) (value : Option (List ℕ))
    → IsText o.text
    → IsText (write_string_field o key value).text
unfolding write_string_field
write_string_field-IsText o key none h = h
write_string_field-IsText o key (some value) h =
    put_field-IsText o key (json_escape (some value)) h (json_escape-IsText (some value))

write_int_field-IsText :
    (o : Output) (key : List ℕ) (value : LogInt)
    → IsText o.text
    → IsText (write_int_field o key value).text
unfolding write_int_field
write_int_field-IsText o key unset h = h
write_int_field-IsText o key (nonnegative n) h =
    put_field-IsText o key (digits 10 n) h (digits-IsText 10 n)
write_int_field-IsText o key (negative n) h =
    put_field-IsText o key (45 ∷ digits 10 n) h (omega arith, digits-IsText 10 n)

write_bool_field-IsText :
    (o : Output) (key : List ℕ) (value : LogInt)
    → IsText o.text
    → IsText (write_bool_field o key value).text
unfolding write_bool_field
write_bool_field-IsText o key unset h = h
write_bool_field-IsText o key (nonnegative zero) h =
    put_field-IsText o key (codes "false") h (omega arith)
write_bool_field-IsText o key (nonnegative (suc n)) h =
    put_field-IsText o key (codes "true") h (omega arith)
write_bool_field-IsText o key (negative n) h = put_field-IsText o key (codes "true") h (omega arith)

write_fields-IsText :
    (fields : List Field) (o : Output) → IsText o.text → IsText (write_fields o fields).text
unfolding write_fields
write_fields-IsText [] o h = h
write_fields-IsText (string_field key value ∷ fields) o h =
    write_fields-IsText fields (write_string_field o key value)
      (write_string_field-IsText o key value h)
write_fields-IsText (int_field key value ∷ fields) o h =
    write_fields-IsText fields (write_int_field o key value) (write_int_field-IsText o key value h)
write_fields-IsText (bool_field key value ∷ fields) o h =
    write_fields-IsText fields (write_bool_field o key value)
      (write_bool_field-IsText o key value h)

security_object-IsText :
    (first : Bool) (before inner : List ℕ)
    → IsText before
    → IsText inner
    → IsText (
        before
        ++ ((if first then [] else 44 ∷ [])
            ++ (json_escape (some (codes "security")) ++ (58 ∷ 123 ∷ (inner ++ 125 ∷ [])))))
security_object-IsText first before inner h within = All-append IsGraphic before _ h (
    All-append IsGraphic (if first then [] else 44 ∷ []) _ (comma-IsText first) (
      All-append IsGraphic (json_escape (some (codes "security"))) _
        (json_escape-IsText (some (codes "security")))
        (
          omega arith,
          (omega arith, All-append IsGraphic inner (125 ∷ []) within (omega arith, tt)),
        )))

write_security-IsText :
    (o : Output) (event : LogEvent) → IsText o.text → IsText (write_security o event).text
unfolding write_security
write_security-IsText o event h = ground (
  arith,
  security_object-IsText o.first o.text _ h
      (write_fields-IsText (security_fields event) (record { first = true; text = [] }) tt),
)

write_pid_field-IsText :
    (o : Output) (key : List ℕ) (pid : ℕ) → IsText o.text → IsText (write_pid_field o key pid).text
unfolding write_pid_field
write_pid_field-IsText o key pid h =
    ground (arith, put_field-IsText o key (digits 19 pid) h (digits-IsText 19 pid))

entry_text-IsText :
    (time : List ℕ) (logger : Logger) (event : LogEvent) → IsText (entry_text time logger event)
unfolding entry_text
entry_text-IsText time logger event =
    let o : Output =
      write_fields (record { first = true; text = 123 ∷ [] }) (string_fields time logger event) in
    let strings : IsText o.text =
      write_fields-IsText (string_fields time logger event)
        (record { first = true; text = 123 ∷ [] }) (omega arith, tt) in
    let ints = write_fields-IsText (int_fields event) o strings in
    let secured = write_security-IsText (write_fields o (int_fields event)) event ints in
    All-append IsGraphic _ (125 ∷ []) (write_pid_field-IsText _ (codes "pid") event.pid secured)
      (omega arith, tt)

-- Whatever the texts and numbers of an event are, and for a NULL event too: an open logger writes
-- one line, a text without any byte below 32 and then the line end.
pub logger_write-IsText :
    (time : List ℕ) (logger : Logger) (event : Option LogEvent)
    → (line : List ℕ) × (logger_write time (some logger) event ≡ line ++ 10 ∷ []) × IsText line
unfolding logger_write
logger_write-IsText time logger none = (_, refl, entry_text-IsText time logger empty_event)
logger_write-IsText time logger (some event) = (_, refl, entry_text-IsText time logger event)
