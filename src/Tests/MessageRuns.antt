-- ===== src/Tests/MessageRuns.antt =====
-- The objects of the protocol.
use ohmcp.Base.{◌≡◌, refl, arith, some, none, []}
use ohmcp.Base.Bytes.{ascii}
use ohmcp.Base.Integers.{negsuc}
use ohmcp.Core.Json.{
  Json, null, object, array, string, and_element, and_member, no_element, no_member, once,
}
use ohmcp.Core.Message.{ErrorBody, image}
use ohmcp.Core.Message.Any.{error_body, write, read_like}
use ohmcp.Core.Message.RoundTrip.{read_like-write, normal}
use ohmcp.Core.Message.Read

abbrev failure : ErrorBody Json
failure = record { code = negsuc 32000; message = ascii "denied"; details = some null }

read_like-write_example :
    read_like (error_body failure) (write (error_body failure)) ≡ some (normal (error_body failure))
read_like-write_example = read_like-write (error_body failure) (omega arith)

-- A struct is read from an array too; fields with a default may be missing at its end.
reads_array :
    Read.call_tool_params (array (and_element (string (ascii "echo")) no_element))
    ≡ some (record { name = ascii "echo"; arguments = null; meta = none })
reads_array = refl

reads_tagged_array :
    Read.content_block (
      array (
        and_element
          (string (ascii "image"))
          (and_element (string (ascii "d")) (and_element (string (ascii "png")) no_element))))
    ≡ some (image (ascii "d") (ascii "png"))
reads_tagged_array = refl

-- A member that comes twice is an error, and one that is unknown is none.
refuses_twice :
    Read.read_resource_params (
      object
        (and_member (ascii "uri") (string []) (and_member (ascii "uri") (string []) no_member)))
    ≡ none
unfolding once
refuses_twice = refl

ignores_unknown :
    Read.read_resource_params
      (object (and_member (ascii "uri") (string []) (and_member (ascii "more") null no_member)))
    ≡ some (record { uri = [] })
unfolding once
ignores_unknown = refl
