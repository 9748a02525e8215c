-- ===== src/Network/Tests/Returns.antt =====
-- Which commands and events the event loop of src/network/mod.rs survives, on small examples.
use file_sharing_example.Common.{◌≡◌, refl, ◌↔◌, true, [], ◌∷◌, ◌++◌}
use file_sharing_example.FileGet.Types.{FileGetMessage, request_received}
use file_sharing_example.Network.Types.{is_absolute, returned}
use file_sharing_example.Network.Commands.{handle_command}
use file_sharing_example.Network.Behaviour.{file_get_event}
use file_sharing_example.Network.Events.{handle_event}
use file_sharing_example.Network.Returns.{
  Returns, can_handle, can_take, handle_command-Returns_iff, handle_event-Returns_iff,
  absolute_name_escapes,
}
use file_sharing_example.Network.Tests.{names, world, idle, idle-IsBooked, fetch}

handle_command-Returns_iff_example :
    Returns (handle_command names world idle fetch)
    ↔ (can_handle names world idle fetch.command ≡ true)
handle_command-Returns_iff_example = handle_command-Returns_iff names world idle fetch

abbrev secret : FileGetMessage
secret = record { file_name = b'/' ∷ b'k' ∷ [] }

handle_event-Returns_iff_example :
    Returns (handle_event names true world idle (file_get_event (request_received 7 1 secret 40)))
    ↔ (can_take names world idle (file_get_event (request_received 7 1 secret 40)) ≡ true)
handle_event-Returns_iff_example =
    handle_event-Returns_iff names world true idle (file_get_event (request_received 7 1 secret 40))
      idle-IsBooked

secret_absolute : is_absolute secret.file_name ≡ true
unfolding is_absolute
secret_absolute = refl

absolute_name_escapes_example :
    handle_event names true world idle (file_get_event (request_received 7 1 secret 40))
    ≡ returned (record idle { served = idle.served ++ (40, 2) ∷ [] })
absolute_name_escapes_example =
    absolute_name_escapes names world true idle 7 1 secret 40 2 secret_absolute refl
