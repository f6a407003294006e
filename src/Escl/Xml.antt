-- ===== src/Escl/Xml.antt =====
-- The trees of libxml2, as far as xml_util.cc uses them, and its calls as an interface.
pub mod Write
pub mod Read
pub mod Job
use virtual_usb_printer.Common.{Option, none, some, List, [], ◌∷◌, Bytes, codes}

-- `xmlNode`. An element has the prefix of its namespace, if any, the namespaces that it declares (prefix
-- and address), a name and children, and no content. Any other node, such as a text, a comment, a CDATA
-- section or a reference to an entity, has a name, which is empty for a null pointer, may have content,
-- and may have children, as a reference to an entity has.
mutual
  pub data XmlNode : Type 0 where
    element : Option Bytes → List (Bytes × Bytes) → Bytes → XmlNodes → XmlNode
    other : Bytes → Option Bytes → XmlNodes → XmlNode

  pub data XmlNodes : Type 0 where
    nil : XmlNodes
    cons : XmlNode → XmlNodes → XmlNodes

abbrev pub node_name : XmlNode → Bytes
node_name (element ns declared name children) = name
node_name (other name content children) = name

abbrev pub node_children : XmlNode → XmlNodes
node_children (element ns declared name children) = children
node_children (other name content children) = children

-- The content, `none` for a null pointer.
abbrev pub node_content : XmlNode → Option Bytes
node_content (element ns declared name children) = none
node_content (other name content children) = content

abbrev pub to_nodes : List XmlNode → XmlNodes
to_nodes [] = nil
to_nodes (n ∷ ns) = cons n (to_nodes ns)

abbrev pub text_node : Bytes → XmlNode
text_node content = other (codes "text") (some content) nil

-- The functions of libxml2 that build, write and read a document.
pub record LibXml : Type 0 where
  -- The children that `xmlNodeSetContent` gives a node: it reads entity references in the content.
  pub content_nodes : Bytes → XmlNodes
  -- `xmlDocDumpFormatMemoryEnc` of a document with this root
  pub dump : XmlNode → Bytes
  -- `xmlReadMemory`, and `xmlDocGetRootElement` of the document: `none` is a null pointer.
  pub read_memory : Bytes → Option (Option XmlNode)
