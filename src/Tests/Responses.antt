-- ===== src/Tests/Responses.antt =====
-- The bytes of a response.
use ehttp.Base.{◌≡◌, refl, true, [], ◌∷◌, codes}
use ehttp.Response.Layout.Message.{read_message, read_message-gen_response}
use ehttp.Response.Layout.{head_lines}
use ehttp.Response.{Response, new_response, status_ok, gen_response}
use ehttp.Std.Stream.{has_byte}

abbrev hello : Response
hello = record (new_response status_ok) {
  headers = (codes "Server-Name", codes "x") ∷ [];
  body = codes "hello";
}

read_message-gen_response_example :
    read_message (gen_response hello (codes "HTTP/1.1") true).1.res_bytes.buffer
    ≡ (head_lines hello (codes "HTTP/1.1") true, codes "hello")
unfolding has_byte
read_message-gen_response_example =
    read_message-gen_response hello (codes "HTTP/1.1") true refl refl refl ((refl, refl), tt)
