-- ===== src/State/Runs/RoundTrip.antt =====
-- A run that is written is read back.
use req_pack_core.Prelude.{
  false, ◌≡◌, ◌≢◌, refl, ap, sym, ◌∙◌, nat_eq, Text, text_eq, text_beq, codes, List, [], ◌∷◌, ◌++◌,
  some, all_of, is_empty_of_ne, All, All-append, append_assoc, append-nil,
}
use req_pack_core.State.Records.{TransactionRunRecord}
use req_pack_core.State.Fields.{
  split_first, getlines, transaction_database_escape_field, unescape_from,
  transaction_database_unescape_field,
}
use req_pack_core.State.Fields.Escaping.{
  Without, escape-Without, unescape-escape, unescape_from-escape, unescape-eq-unescape_from,
}
use req_pack_core.State.Fields.Lines.{
  getlines-line, getlines-last, getlines-field_then, getlines-key_then,
}
use req_pack_core.State.Runs.{
  join_flags, transaction_database_serialize_run, push_flags, transaction_database_deserialize_run,
}

-- The flags with a semicolon between two.
join : List Text → Text
join [] = []
join (flag ∷ []) = flag
join (flag ∷ more) = flag ++ (b';' ∷ join more)

join_flags-Without : (flags : List Text) → Without 10 (join_flags flags)
unfolding join_flags
join_flags-Without [] = tt
join_flags-Without (flag ∷ []) = escape-Without flag
join_flags-Without (flag ∷ f ∷ more) =
    All-append _ (transaction_database_escape_field flag) _ (escape-Without flag)
      (refl, join_flags-Without (f ∷ more))

unescape_from-join_flags : (flags : List Text) → unescape_from false (join_flags flags) ≡ join flags
unfolding join_flags join unescape_from
unescape_from-join_flags [] = refl
unescape_from-join_flags (flag ∷ []) = rw (append-nil, append-nil) at (unescape_from-escape flag [])
unescape_from-join_flags (flag ∷ f ∷ more) =
    unescape_from-escape flag (b';' ∷ join_flags (f ∷ more))
    ∙ ap (λ t. flag ++ (b';' ∷ t)) (unescape_from-join_flags (f ∷ more))

unescape-join_flags :
    (flags : List Text) → transaction_database_unescape_field (join_flags flags) ≡ join flags
unescape-join_flags flags =
    unescape-eq-unescape_from (join_flags flags) ∙ unescape_from-join_flags flags

-- A flag that survives: not empty, and no semicolon in it.
abbrev pub IsStorable : Text → Type 0
IsStorable flag = (flag ≢ []) × Without b';' flag

push_flags-append :
    (before flags : List Text) → All IsStorable flags → push_flags before flags ≡ before ++ flags
unfolding push_flags
push_flags-append before [] h = sym (append-nil before)
push_flags-append before ([] ∷ flags) h = absurd (h.0.0 refl)
push_flags-append before ((c ∷ f) ∷ flags) h =
    push_flags-append (before ++ ((c ∷ f) ∷ [])) flags h.1
    ∙ append_assoc before ((c ∷ f) ∷ []) flags

getlines-join : (flags : List Text) → All IsStorable flags → getlines b';' (join flags) ≡ flags
unfolding join
getlines-join [] h = unfold getlines in refl
getlines-join ([] ∷ flags) h = absurd (h.0.0 refl)
getlines-join ((c ∷ f) ∷ []) h = getlines-last b';' c f h.0.1
getlines-join ((c ∷ f) ∷ g ∷ more) h =
    getlines-line b';' (c ∷ f) _ h.0.1 ∙ ap (◌∷◌ (c ∷ f)) (getlines-join (g ∷ more) h.1)

-- What `createRun` writes: every text field is there.
pub record IsComplete (run : TransactionRunRecord) : Type 0 where
  pub id : run.id ≢ []
  pub state : run.state ≢ []
  pub created_at : run.created_at ≢ []
  pub updated_at : run.updated_at ≢ []

serialized_lines :
    (run : TransactionRunRecord)
    → getlines 10 (transaction_database_serialize_run run)
      ≡ (codes "state=" ++ transaction_database_escape_field run.state)
        ∷ (codes "createdAt=" ++ transaction_database_escape_field run.created_at)
        ∷ (codes "updatedAt=" ++ transaction_database_escape_field run.updated_at)
        ∷ (codes "flags=" ++ join_flags run.flags)
        ∷ []
unfolding transaction_database_serialize_run all_of getlines
serialized_lines run = getlines-field_then (codes "state=") run.state _ refl (
    getlines-field_then (codes "createdAt=") run.created_at _ refl (
      getlines-field_then (codes "updatedAt=") run.updated_at _ refl (
        getlines-key_then (codes "flags=") (join_flags run.flags) [] refl
          (join_flags-Without run.flags) refl)))

deserialize_run-any :
    (run : TransactionRunRecord)
    → IsComplete run
    → transaction_database_deserialize_run run.id (transaction_database_serialize_run run)
      ≡ some (record run { flags = push_flags [] (getlines b';' (join run.flags)) })
unfolding transaction_database_deserialize_run split_first text_beq
deserialize_run-any run complete =
    rw
      (
        serialized_lines run,
        unescape-escape,
        unescape-escape,
        unescape-escape,
        unescape-join_flags,
        is_empty_of_ne run.id complete.id,
        is_empty_of_ne run.state complete.state,
        is_empty_of_ne run.created_at complete.created_at,
        is_empty_of_ne run.updated_at complete.updated_at,
      )
      refl

-- A run whose identifier, state and times are not empty is read back as it was written, if no flag
-- is empty or has a semicolon.
pub deserialize_run-serialize :
    (run : TransactionRunRecord)
    → IsComplete run
    → All IsStorable run.flags
    → transaction_database_deserialize_run run.id (transaction_database_serialize_run run)
      ≡ some run
deserialize_run-serialize run complete storable =
    deserialize_run-any run complete
    ∙ rw (getlines-join run.flags storable, push_flags-append [] run.flags storable) refl

-- A flag with a semicolon between two storable parts is read back as two flags: the semicolon is
-- not escaped.
pub deserialize_run-semicolon :
    (run : TransactionRunRecord) (a b : Text)
    → IsComplete run
    → IsStorable a
    → IsStorable b
    → run.flags ≡ (a ++ (b';' ∷ b)) ∷ []
    → transaction_database_deserialize_run run.id (transaction_database_serialize_run run)
      ≡ some (record run { flags = a ∷ b ∷ [] })
unfolding join
deserialize_run-semicolon run a b complete ha hb e =
    deserialize_run-any run complete
    ∙ ap (λ flags. some (record run { flags = flags }))
        (ap (λ flags. push_flags [] (getlines b';' (join flags))) e
          ∙ ap (push_flags []) (getlines-join (a ∷ b ∷ []) (ha, (hb, tt)))
          ∙ push_flags-append [] (a ∷ b ∷ []) (ha, (hb, tt)))
