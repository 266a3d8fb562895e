-- ===== src/App/Startup.antt =====
-- `startHTTP` of internal/app/app.go, and internal/app/runtime.go. What each constructor, start and
-- probe answers is its error; `none` is the error `nil`.
pub mod Release
use joy_pi_health.Prelude.{Bool, true, false, Option, none, some, List, [], ◌∷◌, ◌++◌}
use joy_pi_health.Errors.{Error}

-- What becomes of the three parts of the runtime.
pub data Action : Type 0 where
  observer_created firmware_created firmware_started server_listening observer_started : Action
  server_closed observer_closed firmware_closed : Action

pub record StartAnswers : Type 0 where
  pub new_observer : Option Error
  pub new_executor : Option Error
  pub start_executor : Option Error
  pub new_reporter : Option Error
  pub wire_coordinator : Option Error
  pub listen : Option Error
  pub start_observer : Option Error
  pub probe : Option Error
  pub executor_ready : Option Error

-- The last three steps, each of which closes everything where it fails.
abbrev closing_all : List Action
closing_all = server_closed ∷ observer_closed ∷ firmware_closed ∷ []

abbrev listening : List Action
listening = observer_created ∷ firmware_created ∷ firmware_started ∷ server_listening ∷ []

abbrev finish : Option Error → List Action → Option Error × List Action
finish none actions = (none, actions)
finish (some e) actions = (some e, actions ++ closing_all)

unfoldable pub start_and_probe : StartAnswers → Option Error × List Action
start_and_probe a = elim a.start_observer [
  | some e ↦ (some e, listening ++ closing_all)
  | none ↦ elim a.probe [
    | some e ↦ (some e, listening ++ observer_started ∷ closing_all)
    | none ↦ finish a.executor_ready (listening ++ observer_started ∷ [])
  ]
]

-- With the executor started, up to the listener.
unfoldable pub wire_up : StartAnswers → Option Error × List Action
unfolding start_and_probe
wire_up a =
    let undone =
      observer_created ∷ firmware_created ∷ firmware_started ∷ observer_closed ∷ firmware_closed
      ∷ [] in
    elim a.new_reporter [
      | some e ↦ (some e, undone)
      | none ↦ elim a.wire_coordinator [
        | some e ↦ (some e, undone)
        | none ↦ elim a.listen [ some e ↦ (some e, undone) | none ↦ start_and_probe a ]
      ]
    ]

unfoldable pub start_http : StartAnswers → Option Error × List Action
unfolding wire_up
start_http a = elim a.new_observer [
  | some e ↦ (some e, [])
  | none ↦ elim a.new_executor [
    | some e ↦ (some e, observer_created ∷ observer_closed ∷ [])
    | none ↦ elim a.start_executor [
      | some e ↦ (some e, observer_created ∷ firmware_created ∷ observer_closed ∷ [])
      | none ↦ wire_up a
    ]
  ]
]

-- `errors.Join`: the errors that are not nil; an empty list is the error `nil`.
unfoldable pub join_errors : List (Option Error) → List Error
join_errors [] = []
join_errors (none ∷ es) = join_errors es
join_errors (some e ∷ es) = e ∷ join_errors es

-- `Shutdown` and `Close` of the runtime: the errors of the server, the observer and the executor, which
-- may be nil itself, each of which is asked whatever the others answer.
unfoldable pub shutdown_runtime : Option Error → Option Error → Option (Option Error) → List Error
unfolding join_errors
shutdown_runtime server observer none = join_errors (server ∷ observer ∷ [])
shutdown_runtime server observer (some firmware) = join_errors (server ∷ observer ∷ firmware ∷ [])
